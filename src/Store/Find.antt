-- ===== src/Store/Find.antt =====
-- What each call of the store leaves under an identifier.
use obsidian.Common.Int.{ℤ}
use obsidian.Common.{
  suc, ◌≡◌, refl, ◌∙◌, inl, inr, true, false, List, [], ◌∷◌, ◌++◌, Option, none, some, arith, Bytes,
  if◌then◌else◌, Bool-cases, Option-cases,
}
use obsidian.Store.{Files, Rule, Store, has_id, same_id}
use obsidian.Store.Counts.{count_match}
use obsidian.Store.Edit.{
  create_rule, created, delete_rule, find_rule, is_protected, persist_state, remove_rule,
  replace_rule, update_rule, updated,
}
use obsidian.Store.Load.{
  insert_rule, load_crs_rules, load_custom_rules, merge_rules, merge_rules_from_file, put_rule,
  put_rules, sort_rules,
}
use obsidian.Store.Unique.{IsUnique, put_rules-IsUnique, same_id_iff, has_id-sort_rules}

abbrev pub or_else : Option Rule → Option Rule → Option Rule
or_else none o = o
or_else (some r) o = some r

find_rule_absent : (id : ℤ) (rs : List Rule) → has_id id rs ≡ false → find_rule id rs ≡ none
unfolding has_id find_rule
find_rule_absent id [] h = refl
find_rule_absent id (r ∷ rs) h = ground (arith, find_rule_absent id rs)

find_rule-put_rule :
    (id : ℤ) (r : Rule) (rs : List Rule)
    → find_rule id (put_rule r rs) ≡ (if same_id r.id id then some r else find_rule id rs)
unfolding find_rule put_rule
find_rule-put_rule id r [] = refl
find_rule-put_rule id r (x ∷ xs) = ground (
  arith,
  find_rule-put_rule id r xs,
  same_id_iff x.id r.id,
  same_id_iff x.id id,
  same_id_iff r.id id,
)

find_rule-put_rules :
    (id : ℤ) (rs by_id : List Rule)
    → IsUnique rs
    → find_rule id (put_rules rs by_id) ≡ or_else (find_rule id rs) (find_rule id by_id)
unfolding find_rule put_rules
find_rule-put_rules id [] by_id h = refl
find_rule-put_rules id (r ∷ rs) by_id h = ground (
  arith,
  find_rule-put_rules id rs (put_rule r by_id) h.1,
  find_rule-put_rule id r by_id,
  find_rule_absent r.id rs h.0,
  same_id_iff r.id id,
)

find_rule-insert_rule :
    (id : ℤ) (r : Rule) (rs : List Rule)
    → has_id r.id rs ≡ false
    → find_rule id (insert_rule r rs) ≡ (if same_id r.id id then some r else find_rule id rs)
unfolding find_rule insert_rule has_id
find_rule-insert_rule id r [] h = refl
find_rule-insert_rule id r (x ∷ xs) h = ground (
  arith,
  find_rule-insert_rule id r xs,
  same_id_iff x.id id,
  same_id_iff r.id id,
  same_id_iff x.id r.id,
)

find_rule-sort_rules :
    (id : ℤ) (rs : List Rule) → IsUnique rs → find_rule id (sort_rules rs) ≡ find_rule id rs
unfolding find_rule sort_rules
find_rule-sort_rules id [] h = refl
find_rule-sort_rules id (r ∷ rs) h = ground (
  arith,
  find_rule-insert_rule id r (sort_rules rs),
  has_id-sort_rules r.id rs,
  find_rule-sort_rules id rs h.1,
  h.0,
)

-- Of the rules with an identifier, merging prefers the one in memory.
find_rule-merge_rules :
    (id : ℤ) (crs custom own : List Rule)
    → IsUnique own
    → find_rule id (merge_rules crs custom own)
      ≡ or_else (find_rule id own) (find_rule id (put_rules custom (put_rules crs [])))
unfolding merge_rules
find_rule-merge_rules id crs custom own h =
    find_rule-sort_rules id (put_rules own (put_rules custom (put_rules crs [])))
      (put_rules-IsUnique own _ (put_rules-IsUnique custom _ (put_rules-IsUnique crs [] tt)))
    ∙ find_rule-put_rules id own (put_rules custom (put_rules crs [])) h

-- But for the counts of its matches, the rule is among the rules.
abbrev pub without_counts : Rule → Rule
without_counts r = record r { match_count = 0; last_match = [] }

pub find_rule-count_match :
    (id j : ℤ) (now : Bytes) (rs : List Rule) (x : Rule)
    → find_rule id rs ≡ some x
    → (y : Rule) × (find_rule id (count_match j now rs) ≡ some y)
      × (without_counts y ≡ without_counts x)
unfolding find_rule count_match
find_rule-count_match id j now [] x h = cc
find_rule-count_match id j now (r ∷ rs) x h = elim (Bool-cases (same_id r.id j)) [
  | inl e ↦ elim (Bool-cases (same_id r.id id)) [
    | inl f ↦ (
      record x { match_count = suc x.match_count; last_match = now },
      ground (arith, e, f, h),
      refl,
    )
    | inr f ↦ (x, ground (arith, e, f, h), refl)
  ]
  | inr e ↦ elim (Bool-cases (same_id r.id id)) [
    | inl f ↦ (x, ground (arith, e, f, h), refl)
    | inr f ↦
        (let (y, g, k) = find_rule-count_match id j now rs x (ground (arith, f, h)) in
          (y, ground (arith, e, f, g), k))
  ]
]

module _ {F : Type 0} (files : Files F) where
  find_rule-append :
      (id : ℤ) (rs ys : List Rule) (x : Rule)
      → find_rule id rs ≡ some x
      → find_rule id (rs ++ ys) ≡ some x
  unfolding find_rule
  find_rule-append id [] ys x h = cc
  find_rule-append id (r ∷ rs) ys x h = ground (arith, find_rule-append id rs ys x)

  find_rule-replace_rule :
      (id : ℤ) (r : Rule) (rs : List Rule)
      → same_id r.id id ≡ false
      → find_rule id (replace_rule r rs) ≡ find_rule id rs
  unfolding find_rule replace_rule
  find_rule-replace_rule id r [] h = refl
  find_rule-replace_rule id r (x ∷ xs) h = ground (
    arith,
    find_rule-replace_rule id r xs h,
    same_id_iff x.id r.id,
    same_id_iff x.id id,
    same_id_iff r.id id,
  )

  find_rule-remove_rule :
      (id j : ℤ) (rs : List Rule)
      → same_id j id ≡ false
      → find_rule id (remove_rule j rs) ≡ find_rule id rs
  unfolding find_rule remove_rule
  find_rule-remove_rule id j [] h = refl
  find_rule-remove_rule id j (x ∷ xs) h = ground (
    arith,
    find_rule-remove_rule id j xs h,
    same_id_iff x.id j,
    same_id_iff x.id id,
    same_id_iff j id,
  )

  pub create_rule-find_rule :
      (s : Store F) (given : Rule) (id : ℤ) (x : Rule)
      → find_rule id s.state.rules ≡ some x
      → find_rule id (create_rule files s given).0.state.rules ≡ some x
  unfolding create_rule persist_state
  create_rule-find_rule s given id x h =
      ground (arith, find_rule-append id s.state.rules (created given ∷ []) x h, h)

  pub update_rule-find_rule :
      (s : Store F) (given : Rule) (id : ℤ) (x : Rule)
      → is_protected x ≡ true
      → find_rule id s.state.rules ≡ some x
      → find_rule id (update_rule files s given).0.state.rules ≡ some x
  unfolding update_rule persist_state
  update_rule-find_rule s given id x p h = elim (Option-cases (find_rule given.id s.state.rules)) [
    | inl e ↦ ground (arith, e, h)
    | inr (old, e) ↦ ground (
      arith,
      e,
      h,
      p,
      same_id_iff given.id id,
      find_rule-replace_rule id (updated old given) s.state.rules,
    )
  ]

  pub delete_rule-find_rule :
      (s : Store F) (j : ℤ) (id : ℤ) (x : Rule)
      → is_protected x ≡ true
      → find_rule id s.state.rules ≡ some x
      → find_rule id (delete_rule files s j).0.state.rules ≡ some x
  unfolding delete_rule persist_state
  delete_rule-find_rule s j id x p h = elim (Option-cases (find_rule j s.state.rules)) [
    | inl e ↦ ground (arith, e, h)
    | inr (old, e) ↦
        ground (arith, e, h, p, same_id_iff j id, find_rule-remove_rule id j s.state.rules)
  ]

  -- A reload of the files leaves what is found under an identifier among the rules in memory.
  pub merge_rules_from_file-find_rule :
      (s : Store F) (id : ℤ) (x : Rule)
      → IsUnique s.state.rules
      → find_rule id s.state.rules ≡ some x
      → find_rule id (merge_rules_from_file files s).0.state.rules ≡ some x
  unfolding merge_rules_from_file
  merge_rules_from_file-find_rule s id x u h = elim (Option-cases (load_custom_rules files s)) [
    | inl e ↦ ground (arith, e, h)
    | inr (custom, e) ↦ elim (Option-cases (load_crs_rules files s)) [
      | inl f ↦ ground (arith, e, f, h)
      | inr (crs, f) ↦ ground (arith, e, f, h, find_rule-merge_rules id crs custom s.state.rules u)
    ]
  ]
