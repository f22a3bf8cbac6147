-- ===== src/Store/Counts.antt =====
-- AddLog, AddSafeLog, IncrementSafeRequest and RecordResponseTime. `now` is the formatted time.
use obsidian.Common.Int.{ℤ, pos}
use obsidian.Common.{
  ℕ, suc, ◌+◌, ◌||◌, List, [], ◌∷◌, ◌++◌, Bytes, codes, same, to_lower, length, ltb, if◌then◌else◌,
}
use obsidian.Store.{LogEntry, Rule, Stats, Store, same_id}

-- `s.state.Logs[1:]` where there are more than 1000.
unfoldable pub trim_logs : List LogEntry → List LogEntry
trim_logs [] = []
trim_logs (e ∷ es) = if ltb 1000 (length (e ∷ es)) then es else e ∷ es

unfoldable pub status_of_action : Bytes → Bytes
status_of_action action =
    if same (to_lower action) (codes "blocked") || same (to_lower action) (codes "deny")
    then codes "Blocked"
    else if same (to_lower action) (codes "log")
    then codes "Flagged"
    else codes "Safe"

abbrev pub with_status : LogEntry → LogEntry
with_status e = record e {
  status = if same e.status [] then status_of_action e.action else e.status;
}

-- The match is counted at the first rule with the identifier.
unfoldable pub count_match : ℤ → Bytes → List Rule → List Rule
count_match id now [] = []
count_match id now (r ∷ rs) =
    if same_id r.id id
    then record r { match_count = suc r.match_count; last_match = now } ∷ rs
    else r ∷ count_match id now rs

-- The counts after a request with the status.
unfoldable pub count_status : Bytes → Stats → Stats
count_status status stats =
    if same status (codes "Blocked") || same status (codes "ThreatBlocked")
    then record stats {
      total_requests = suc stats.total_requests;
      blocked_requests = suc stats.blocked_requests;
    }
    else if same status (codes "Flagged")
    then record stats {
      total_requests = suc stats.total_requests;
      flagged_requests = suc stats.flagged_requests;
    }
    else record stats {
      total_requests = suc stats.total_requests;
      safe_requests = suc stats.safe_requests;
    }

abbrev pub count_safe : Stats → Stats
count_safe stats = record stats {
  total_requests = suc stats.total_requests;
  safe_requests = suc stats.safe_requests;
}

abbrev pub matched : ℤ → Bytes → List Rule → List Rule
matched id now rules = if same_id id (pos 0) then rules else count_match id now rules

module _ {F : Type 0} where
  unfoldable pub add_log : Store F → LogEntry → Bytes → Store F
  add_log s given now =
      let entry = with_status given in
      record s {
        state = record {
          logs = trim_logs s.state.logs ++ entry ∷ [];
          rules = matched entry.rule_id now s.state.rules;
          stats = count_status entry.status s.state.stats;
        };
        custom_rules = matched entry.rule_id now s.custom_rules;
        crs_rules = matched entry.rule_id now s.crs_rules;
      }

  unfoldable pub increment_safe_request : Store F → Store F
  increment_safe_request s = record s {
    state = record (s.state) { stats = count_safe s.state.stats };
  }

  unfoldable pub add_safe_log : Store F → LogEntry → Store F
  add_safe_log s given =
      let entry = record given { status = codes "Safe"; action = codes "Pass" } in
      record s {
        state = record (s.state) {
          logs = trim_logs s.state.logs ++ entry ∷ [];
          stats = count_safe s.state.stats;
        };
      }

  unfoldable pub record_response_time : Store F → ℕ → Store F
  record_response_time s d = record s {
    state = record (s.state) {
      stats = record (s.state.stats) {
        total_response_time_ns = s.state.stats.total_response_time_ns + d;
        response_count = suc s.state.stats.response_count;
      };
    };
  }
