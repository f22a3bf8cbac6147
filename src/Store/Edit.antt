-- ===== src/Store/Edit.antt =====
-- CreateRule, UpdateRule and DeleteRule. The file is written last, and a failure to write it leaves
-- the change in force. The audit records go to PostgreSQL only.
use obsidian.Common.Int.{ℤ}
use obsidian.Common.{
  Bool, false, not, ◌||◌, List, [], ◌∷◌, ◌++◌, Option, none, some, codes, same, if◌then◌else◌,
}
use obsidian.Store.{
  Files, Result, Rule, Store, duplicate_id, err, has_id, not_found, ok, out_of_range,
  persist_failed, read_only_rule, same_id, validate_rule_id_range,
}
use obsidian.Store.Load.{with_rules}

-- The first rule with the identifier.
unfoldable pub find_rule : ℤ → List Rule → Option Rule
find_rule id [] = none
find_rule id (r ∷ rs) = if same_id r.id id then some r else find_rule id rs

-- A write in place of the first rule with the identifier of the new one.
unfoldable pub replace_rule : Rule → List Rule → List Rule
replace_rule rule [] = []
replace_rule rule (r ∷ rs) = if same_id r.id rule.id then rule ∷ rs else r ∷ replace_rule rule rs

-- The deletion of the first rule with the identifier.
unfoldable pub remove_rule : ℤ → List Rule → List Rule
remove_rule id [] = []
remove_rule id (r ∷ rs) = if same_id r.id id then rs else r ∷ remove_rule id rs

-- `r.ReadOnly || r.Source == "crs"`
unfoldable pub is_protected : Rule → Bool
is_protected r = r.read_only || same r.source (codes "crs")

-- The rule that `CreateRule` adds.
abbrev pub created : Rule → Rule
created given = record given {
  source = if same given.source [] then codes "custom" else given.source;
  read_only = false;
}

-- The rule that `UpdateRule` writes over an old one.
abbrev pub updated : Rule → Rule → Rule
updated old given = record given {
  source = if same given.source [] then old.source else given.source;
  read_only = false;
}

module _ {F : Type 0} (files : Files F) where
  unfoldable pub persist_state : Store F → Store F × Result
  persist_state s =
      let (f, written) = files.persist s.files s.state in
      (record s { files = f }, (if written then ok else err persist_failed))

  unfoldable pub create_rule : Store F → Rule → Store F × Result
  create_rule s given =
      let rule = created given in
      if not (validate_rule_id_range rule.source rule.id)
      then (s, err out_of_range)
      else if has_id rule.id s.state.rules
      then (s, err duplicate_id)
      else persist_state (record s {
        state = with_rules s.state (s.state.rules ++ rule ∷ []);
        custom_rules = s.custom_rules ++ rule ∷ [];
      })

  unfoldable pub update_rule : Store F → Rule → Store F × Result
  update_rule s given = elim (find_rule given.id s.state.rules) [
    | none ↦ (s, err not_found)
    | some r ↦
        let rule = updated r given in
        if is_protected r
        then (s, err read_only_rule)
        else if not (validate_rule_id_range rule.source rule.id)
        then (s, err out_of_range)
        else persist_state (record s {
          state = record (s.state) { rules = replace_rule rule s.state.rules };
          custom_rules = replace_rule rule s.custom_rules;
        })
  ]

  unfoldable pub delete_rule : Store F → ℤ → Store F × Result
  delete_rule s id = elim (find_rule id s.state.rules) [
    | none ↦ (s, err not_found)
    | some r ↦
        if is_protected r
        then (s, err read_only_rule)
        else persist_state (record s {
          state = with_rules s.state (remove_rule id s.state.rules);
          custom_rules = remove_rule id s.custom_rules;
        })
  ]
