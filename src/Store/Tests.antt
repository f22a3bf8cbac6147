-- ===== src/Store/Tests.antt =====
-- The store on small inputs. The files are the number of the writes, and every number is 920100.
use obsidian.Common.Int.{pos}
use obsidian.Common.{
  length, ◌≤◌, fields, fields_from, ℕ, suc, ◌≡◌, refl, true, List, [], ◌∷◌, none, some, arith,
  Bytes, codes, same, trim_space, trim_left, trim_right, to_lower, has_prefix, trim_prefix, ends_in,
  without_last,
}
use obsidian.Store.{Files, Rule, Store, has_id, same_id, validate_rule_id_range}
use obsidian.Store.Edit.{find_rule, is_protected}
use obsidian.Store.Kept.{Keeps, disable_crs-find_rule, run_calls-Keeps}
use obsidian.Store.Line.{
  add_action, ends_action, extract_quoted, quote_after, split_actions, split_from, trim_quoted,
  trim_quotes, until_byte,
}
use obsidian.Store.Started.{run_calls-new_store}
use obsidian.Store.Load.{load, load_crs_rules, load_custom_rules, new_store, parse_crs, disable_crs}
use obsidian.Store.Parse.{
  parse_lines, apply_action, apply_actions, finish_rule, parse_fields, parse_rules_file,
  parse_sec_rule, with_defaults,
}
use obsidian.Store.Valid.{IsValid, Op, create, delete, disable, log, run_calls, Balanced, update}

abbrev scanner_line : Bytes
scanner_line = codes "SecRule ARGS \"@rx sqlmap\" \"id:920100,deny,log,msg:'a, b'\""

abbrev counting : Files ℕ
counting = record {
  read_state = λ n. none;
  custom_lines = λ n. some [];
  crs_files = λ n. some (some (scanner_line ∷ []) ∷ none ∷ []);
  persist = λ n state. (suc n, true);
  atoi = λ s. some (pos 920100);
  decimal = λ i. codes "n";
}

abbrev scanner_rule : Rule
scanner_rule = record {
  id = pos 920100;
  description = codes "a, b";
  severity = codes "NOTICE";
  enabled = true;
  category = codes "General";
  source = codes "crs";
  read_only = true;
  pattern = codes "@rx sqlmap";
  target_field = codes "ARGS";
  action = codes "log";
  block_status = pos 0;
  threshold = pos 0;
  time_window = pos 0;
  match_count = 0;
  last_match = [];
}

-- The last action wins, although the rule denies.
scanner_line_parsed : parse_sec_rule counting scanner_line (codes "crs") ≡ some scanner_rule
unfolding parse_sec_rule parse_fields fields fields_from extract_quoted until_byte split_actions
    split_from add_action quote_after ends_action same trim_space trim_left trim_right apply_actions
    apply_action to_lower has_prefix trim_prefix trim_quoted trim_quotes ends_in without_last
    finish_rule same_id with_defaults validate_rule_id_range
scanner_line_parsed = refl

abbrev small : Store ℕ
small = record {
  files = 0;
  state = record {
    logs = [];
    rules = scanner_rule ∷ [];
    stats = record {
      total_requests = 2;
      blocked_requests = 1;
      flagged_requests = 0;
      safe_requests = 1;
      active_rules_count = 1;
      total_response_time_ns = 0;
      response_count = 0;
    };
  };
  has_rules_file = true;
  has_crs_path = true;
  crs_on = true;
  custom_rules = [];
  crs_rules = scanner_rule ∷ [];
}

small-IsValid : IsValid small.state
unfolding has_id
small-IsValid = ((refl, tt), refl, omega arith, refl)

abbrev calls : List Op
calls =
    log (record { rule_id = pos 920100; action = codes "deny"; status = []; rest = [] })
      (codes "now")
    ∷ delete (pos 920100)
    ∷ create (record scanner_rule { id = pos 900500; source = [] })
    ∷ update (record scanner_rule { action = codes "pass" })
    ∷ disable
    ∷ []

-- The store as NewStore makes it before it reads a file; the number of rules that it shows is wrong.
abbrev blank : Store ℕ
blank = record small {
  state = record {
    logs = [];
    rules = scanner_rule ∷ [];
    stats = record {
      total_requests = 0;
      blocked_requests = 0;
      flagged_requests = 0;
      safe_requests = 0;
      active_rules_count = 5;
      total_response_time_ns = 0;
      response_count = 0;
    };
  };
  crs_rules = [];
}

custom_read : load_custom_rules counting blank ≡ some []
unfolding load_custom_rules parse_rules_file parse_lines same
custom_read = refl

crs_read :
    load_crs_rules counting blank ≡ some (parse_crs counting (some (scanner_line ∷ []) ∷ none ∷ []))
unfolding load_crs_rules
crs_read = refl

few_logs : length (load counting (scanner_rule ∷ []) blank).state.logs ≤ 1001
unfolding load
few_logs = omega arith

counts_add_up : Balanced (load counting (scanner_rule ∷ []) blank).state.stats
unfolding load
counts_add_up = refl

run_calls-new_store_example :
    IsValid (run_calls counting (new_store counting (scanner_rule ∷ []) blank) calls).state
run_calls-new_store_example =
    run_calls-new_store counting (scanner_rule ∷ []) blank []
      (parse_crs counting (some (scanner_line ∷ []) ∷ none ∷ [])) calls custom_read crs_read
      few_logs counts_add_up

scanner_protected : is_protected scanner_rule ≡ true
unfolding is_protected
scanner_protected = refl

scanner_found : find_rule (pos 920100) small.state.rules ≡ some scanner_rule
unfolding find_rule same_id
scanner_found = refl

run_calls-Keeps_example : Keeps scanner_rule (run_calls counting small calls).state.rules
run_calls-Keeps_example =
    run_calls-Keeps counting small calls scanner_rule small-IsValid scanner_protected
      (scanner_rule, scanner_found, refl)

disable_crs-find_rule_example :
    find_rule (pos 920100) (disable_crs counting small).0.state.rules ≡ some scanner_rule
disable_crs-find_rule_example =
    disable_crs-find_rule counting small (pos 920100) scanner_rule small-IsValid scanner_found
