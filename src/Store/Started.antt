-- ===== src/Store/Started.antt =====
-- Runs of the store from its start by NewStore.
use obsidian.Common.{◌≤◌, ◌≡◌, ◌∙◌, List, some, arith, length}
use obsidian.Store.Load.{
  load, load_crs_rules, load_custom_rules, merge_rules_from_file, new_store, normalize_rules,
}
use obsidian.Store.Unique.{merge_rules-IsUnique}
use obsidian.Store.Valid.{Balanced, IsValid, Op, run_calls, run_calls-IsValid}
use obsidian.Store.{Files, Rule, Store}

module _ {F : Type 0} (files : Files F) where
  load-load_custom_rules :
      (defaults : List Rule) (s : Store F)
      → load_custom_rules files (load files defaults s) ≡ load_custom_rules files s
  unfolding load load_custom_rules
  load-load_custom_rules defaults s = ground arith

  load-load_crs_rules :
      (defaults : List Rule) (s : Store F)
      → load_crs_rules files (load files defaults s) ≡ load_crs_rules files s
  unfolding load load_crs_rules
  load-load_crs_rules defaults s = ground arith

  merge_rules_from_file-read :
      (s : Store F) (custom crs : List Rule)
      → load_custom_rules files s ≡ some custom
      → load_crs_rules files s ≡ some crs
      → length s.state.logs ≤ 1001
      → Balanced s.state.stats
      → IsValid (merge_rules_from_file files s).0.state
  unfolding merge_rules_from_file
  merge_rules_from_file-read s custom crs read found few balanced =
      ground (arith, read, found, few, balanced, merge_rules-IsUnique crs custom s.state.rules)

  pub new_store-IsValid :
      (defaults : List Rule) (s : Store F) (custom crs : List Rule)
      → load_custom_rules files s ≡ some custom
      → load_crs_rules files s ≡ some crs
      → length (load files defaults s).state.logs ≤ 1001
      → Balanced (load files defaults s).state.stats
      → IsValid (new_store files defaults s).state
  unfolding new_store load_custom_rules load_crs_rules
  new_store-IsValid defaults s custom crs read found few balanced =
      let loaded = load files defaults s in
      merge_rules_from_file-read
        (record loaded {
          state = record (loaded.state) { rules = normalize_rules loaded.state.rules };
        })
        custom crs (load-load_custom_rules defaults s ∙ read)
        (load-load_crs_rules defaults s ∙ found) few balanced

  -- Start the store with rules files that can be read and with a state whose log has at most 1001
  -- entries and whose counts of requests add up, as those of the empty state do. Through any calls,
  -- failed ones included: no identifier stands twice among the rules, they are as many as is shown,
  -- the log has at most 1001 entries, and the requests that were counted are the blocked, the flagged
  -- and the safe ones together.
  pub run_calls-new_store :
      (defaults : List Rule) (s : Store F) (custom crs : List Rule) (ops : List Op)
      → load_custom_rules files s ≡ some custom
      → load_crs_rules files s ≡ some crs
      → length (load files defaults s).state.logs ≤ 1001
      → Balanced (load files defaults s).state.stats
      → IsValid (run_calls files (new_store files defaults s) ops).state
  run_calls-new_store defaults s custom crs ops read found few balanced =
      run_calls-IsValid files (new_store files defaults s) ops
        (new_store-IsValid defaults s custom crs read found few balanced)
