-- ===== src/Store/Load.antt =====
-- How the rules of the store come together: NewStore, load, mergeRulesFromFile, EnableCRS and
-- DisableCRS. A Go map of rules by identifier is a list in which an identifier stands once.
use obsidian.Common.{
  true, false, not, ◌||◌, List, [], ◌∷◌, ◌++◌, Option, none, some, Bytes, codes, same, length,
  if◌then◌else◌,
}
use obsidian.Store.{
  Files, Result, Rule, Store, SystemState, err, has_id, ltℤ, ok, read_failed, same_id,
}
use obsidian.Store.Parse.{parse_rules_file}

-- `rulesByID[r.ID] = r`
unfoldable pub put_rule : Rule → List Rule → List Rule
put_rule r [] = r ∷ []
put_rule r (x ∷ xs) = if same_id x.id r.id then r ∷ xs else x ∷ put_rule r xs

unfoldable pub put_rules : List Rule → List Rule → List Rule
put_rules [] by_id = by_id
put_rules (r ∷ rs) by_id = put_rules rs (put_rule r by_id)

-- `sort.Slice` by identifier.
unfoldable pub insert_rule : Rule → List Rule → List Rule
insert_rule r [] = r ∷ []
insert_rule r (x ∷ xs) = if ltℤ x.id r.id then x ∷ insert_rule r xs else r ∷ x ∷ xs

unfoldable pub sort_rules : List Rule → List Rule
sort_rules [] = []
sort_rules (r ∷ rs) = insert_rule r (sort_rules rs)

-- The merged rules: CRS, then the custom file, then those in memory.
unfoldable pub merge_rules : List Rule → List Rule → List Rule → List Rule
merge_rules crs custom own = sort_rules (put_rules own (put_rules custom (put_rules crs [])))

-- The defaults that the state does not have, at its end: the identifiers are those of the file.
unfoldable pub missing_rules : List Rule → List Rule → List Rule
missing_rules own [] = []
missing_rules own (d ∷ ds) =
    let rest = missing_rules own ds in if has_id d.id own then rest else d ∷ rest

unfoldable pub normalize_rules : List Rule → List Rule
normalize_rules [] = []
normalize_rules (r ∷ rs) =
    (if same r.source [] then record r { source = codes "custom" } else r) ∷ normalize_rules rs

-- The rules are replaced and counted.
abbrev pub with_rules : SystemState → List Rule → SystemState
with_rules state rules = record state {
  rules = rules;
  stats = record (state.stats) { active_rules_count = length rules };
}

module _ {F : Type 0} (files : Files F) where
  -- The files that could not be read whole add nothing.
  unfoldable pub parse_crs : List (Option (List Bytes)) → List Rule
  parse_crs [] = []
  parse_crs (none ∷ others) = parse_crs others
  parse_crs (some lines ∷ others) = parse_rules_file files (codes "crs") lines ++ parse_crs others

  -- `loadCustomRulesFromFile`
  unfoldable pub load_custom_rules : Store F → Option (List Rule)
  load_custom_rules s =
      if not s.has_rules_file then some [] else elim (files.custom_lines s.files) [
        | none ↦ none
        | some lines ↦ some (parse_rules_file files (codes "custom") lines)
      ]

  -- `loadCRSRules`, without the status, which is only shown.
  unfoldable pub load_crs_rules : Store F → Option (List Rule)
  load_crs_rules s =
      if not s.crs_on || not s.has_crs_path
      then some []
      else elim (files.crs_files s.files) [ none ↦ none | some found ↦ some (parse_crs found) ]

  -- `mergeRulesFromFile`
  unfoldable pub merge_rules_from_file : Store F → Store F × Result
  merge_rules_from_file s = elim (load_custom_rules s) [
    | none ↦ (s, err read_failed)
    | some custom ↦ elim (load_crs_rules s) [
      | none ↦ (s, err read_failed)
      | some crs ↦ (
        record s {
          custom_rules = custom;
          crs_rules = crs;
          state = with_rules s.state (merge_rules crs custom s.state.rules);
        },
        ok,
      )
    ]
  ]

  unfoldable pub enable_crs : Store F → Store F × Result
  enable_crs s = merge_rules_from_file (record s { crs_on = true })

  unfoldable pub disable_crs : Store F → Store F × Result
  disable_crs s = merge_rules_from_file (record s { crs_on = false })

  -- `load`, given the default rules.
  unfoldable pub load : List Rule → Store F → Store F
  load defaults s = elim (files.read_state s.files) [
    | none ↦ s
    | some parsed ↦
        let state = parsed s.state in
        record s {
          state = record state {
            rules = sort_rules (state.rules ++ missing_rules state.rules defaults);
          };
        }
  ]

  -- `NewStore`, given the default rules and the store that its options have made of the empty
  -- one. A failure to read the rules is only reported.
  unfoldable pub new_store : List Rule → Store F → Store F
  new_store defaults s =
      let loaded = load defaults s in
      (merge_rules_from_file (record loaded {
        state = record (loaded.state) { rules = normalize_rules loaded.state.rules };
      })).0
