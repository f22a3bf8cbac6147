-- ===== src/Store/Unique.antt =====
-- Identifiers stand once among the rules, and what is found under one.
use obsidian.Common.Int.{ℤ, pos, negsuc}
use obsidian.Common.{◌≡◌, ◌↔◌, refl, true, false, ◌||◌, List, [], ◌∷◌, ◌++◌, arith, Bytes}
use obsidian.Store.{Rule, has_id, same_id}
use obsidian.Store.Counts.{count_match}
use obsidian.Store.Edit.{remove_rule, replace_rule}
use obsidian.Store.Load.{insert_rule, merge_rules, put_rule, put_rules, sort_rules}

abbrev pub IsUnique : List Rule → Type 0
IsUnique [] = Unit
IsUnique (r ∷ rs) = (has_id r.id rs ≡ false) × IsUnique rs

pub same_id_iff : (a b : ℤ) → (same_id a b ≡ true) ↔ (a ≡ b)
unfolding same_id
same_id_iff (pos a) (pos b) = ground arith
same_id_iff (negsuc a) (negsuc b) = ground arith
same_id_iff (pos a) (negsuc b) = ground arith
same_id_iff (negsuc a) (pos b) = ground arith

has_id-put_rule :
    (id : ℤ) (r : Rule) (rs : List Rule)
    → has_id id (put_rule r rs) ≡ same_id r.id id || has_id id rs
unfolding has_id put_rule
has_id-put_rule id r [] = refl
has_id-put_rule id r (x ∷ xs) = ground (arith, has_id-put_rule id r xs, same_id_iff x.id r.id)

put_rule-IsUnique : (r : Rule) (rs : List Rule) → IsUnique rs → IsUnique (put_rule r rs)
unfolding has_id put_rule
put_rule-IsUnique r [] h = (refl, tt)
put_rule-IsUnique r (x ∷ xs) h = ground (
  arith,
  put_rule-IsUnique r xs h.1,
  has_id-put_rule x.id r xs,
  same_id_iff x.id r.id,
  same_id_iff r.id x.id,
)

pub put_rules-IsUnique : (rs by_id : List Rule) → IsUnique by_id → IsUnique (put_rules rs by_id)
unfolding put_rules
put_rules-IsUnique [] by_id h = h
put_rules-IsUnique (r ∷ rs) by_id h =
    put_rules-IsUnique rs (put_rule r by_id) (put_rule-IsUnique r by_id h)

has_id-insert_rule :
    (id : ℤ) (r : Rule) (rs : List Rule)
    → has_id id (insert_rule r rs) ≡ same_id r.id id || has_id id rs
unfolding has_id insert_rule
has_id-insert_rule id r [] = refl
has_id-insert_rule id r (x ∷ xs) = ground (arith, has_id-insert_rule id r xs)

insert_rule-IsUnique :
    (r : Rule) (rs : List Rule) → has_id r.id rs ≡ false → IsUnique rs → IsUnique (insert_rule r rs)
unfolding has_id insert_rule
insert_rule-IsUnique r [] n h = (refl, tt)
insert_rule-IsUnique r (x ∷ xs) n h = ground (
  arith,
  insert_rule-IsUnique r xs,
  has_id-insert_rule x.id r xs,
  same_id_iff x.id r.id,
  same_id_iff r.id x.id,
)

pub has_id-sort_rules : (id : ℤ) (rs : List Rule) → has_id id (sort_rules rs) ≡ has_id id rs
unfolding has_id sort_rules
has_id-sort_rules id [] = refl
has_id-sort_rules id (r ∷ rs) =
    ground (arith, has_id-insert_rule id r (sort_rules rs), has_id-sort_rules id rs)

sort_rules-IsUnique : (rs : List Rule) → IsUnique rs → IsUnique (sort_rules rs)
unfolding sort_rules
sort_rules-IsUnique [] h = tt
sort_rules-IsUnique (r ∷ rs) h =
    insert_rule-IsUnique r (sort_rules rs) (ground (arith, has_id-sort_rules r.id rs, h.0))
      (sort_rules-IsUnique rs h.1)

-- Whatever the files hold and the memory has, no identifier stands twice in the merged rules.
pub merge_rules-IsUnique : (crs custom own : List Rule) → IsUnique (merge_rules crs custom own)
unfolding merge_rules
merge_rules-IsUnique crs custom own =
    sort_rules-IsUnique _
      (put_rules-IsUnique own _ (put_rules-IsUnique custom _ (put_rules-IsUnique crs [] tt)))

has_id-append :
    (id : ℤ) (rs : List Rule) (r : Rule)
    → has_id id (rs ++ r ∷ []) ≡ has_id id rs || same_id r.id id
unfolding has_id
has_id-append id [] r = ground arith
has_id-append id (x ∷ xs) r = ground (arith, has_id-append id xs r)

pub append-IsUnique :
    (rs : List Rule) (r : Rule) → has_id r.id rs ≡ false → IsUnique rs → IsUnique (rs ++ r ∷ [])
unfolding has_id
append-IsUnique [] r n h = (refl, tt)
append-IsUnique (x ∷ xs) r n h = ground (
  arith,
  append-IsUnique xs r,
  has_id-append x.id xs r,
  same_id_iff x.id r.id,
  same_id_iff r.id x.id,
)

has_id-replace_rule :
    (id : ℤ) (r : Rule) (rs : List Rule) → has_id id (replace_rule r rs) ≡ has_id id rs
unfolding has_id replace_rule
has_id-replace_rule id r [] = refl
has_id-replace_rule id r (x ∷ xs) =
    ground (arith, has_id-replace_rule id r xs, same_id_iff x.id r.id)

pub replace_rule-IsUnique : (r : Rule) (rs : List Rule) → IsUnique rs → IsUnique (replace_rule r rs)
unfolding replace_rule
replace_rule-IsUnique r [] h = tt
replace_rule-IsUnique r (x ∷ xs) h =
    ground
      (arith, replace_rule-IsUnique r xs h.1, has_id-replace_rule x.id r xs, same_id_iff x.id r.id)

has_id-remove_rule :
    (id j : ℤ) (rs : List Rule) → has_id id rs ≡ false → has_id id (remove_rule j rs) ≡ false
unfolding has_id remove_rule
has_id-remove_rule id j [] h = refl
has_id-remove_rule id j (x ∷ xs) h = ground (arith, has_id-remove_rule id j xs)

pub remove_rule-IsUnique : (j : ℤ) (rs : List Rule) → IsUnique rs → IsUnique (remove_rule j rs)
unfolding remove_rule
remove_rule-IsUnique j [] h = tt
remove_rule-IsUnique j (x ∷ xs) h =
    ground (arith, remove_rule-IsUnique j xs h.1, has_id-remove_rule x.id j xs h.0)

has_id-count_match :
    (id j : ℤ) (now : Bytes) (rs : List Rule) → has_id id (count_match j now rs) ≡ has_id id rs
unfolding has_id count_match
has_id-count_match id j now [] = refl
has_id-count_match id j now (x ∷ xs) = ground (arith, has_id-count_match id j now xs)

pub count_match-IsUnique :
    (j : ℤ) (now : Bytes) (rs : List Rule) → IsUnique rs → IsUnique (count_match j now rs)
unfolding count_match
count_match-IsUnique j now [] h = tt
count_match-IsUnique j now (x ∷ xs) h =
    ground (arith, count_match-IsUnique j now xs h.1, has_id-count_match x.id j now xs)
