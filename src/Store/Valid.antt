-- ===== src/Store/Valid.antt =====
-- Runs of the store, in the order in which its lock admits the calls, and their invariant.
use obsidian.Common.Int.{ℤ}
use obsidian.Common.{
  ℕ, ◌+◌, ◌≤◌, ◌≡◌, refl, inl, inr, true, false, List, [], ◌∷◌, arith, Bytes, codes, length,
  length-append, Option-cases,
}
use obsidian.Store.{Files, LogEntry, Rule, Stats, Store, SystemState}
use obsidian.Store.Counts.{
  with_status, add_log, add_safe_log, count_match, count_status, increment_safe_request,
  record_response_time, trim_logs,
}
use obsidian.Store.Edit.{
  created, updated, create_rule, delete_rule, find_rule, persist_state, replace_rule, update_rule,
}
use obsidian.Store.Load.{
  disable_crs, enable_crs, load_crs_rules, load_custom_rules, merge_rules_from_file,
}
use obsidian.Store.Unique.{
  IsUnique, append-IsUnique, count_match-IsUnique, merge_rules-IsUnique, remove_rule-IsUnique,
  replace_rule-IsUnique,
}

pub data Op : Type 0 where
  log : LogEntry → Bytes → Op
  safe_log : LogEntry → Op
  safe_request : Op
  response : ℕ → Op
  create update : Rule → Op
  delete : ℤ → Op
  enable disable : Op

module _ {F : Type 0} (files : Files F) where
  unfoldable pub step : Store F → Op → Store F
  step s (log e now) = add_log s e now
  step s (safe_log e) = add_safe_log s e
  step s safe_request = increment_safe_request s
  step s (response d) = record_response_time s d
  step s (create r) = (create_rule files s r).0
  step s (update r) = (update_rule files s r).0
  step s (delete id) = (delete_rule files s id).0
  step s enable = (enable_crs files s).0
  step s disable = (disable_crs files s).0

  unfoldable pub run_calls : Store F → List Op → Store F
  run_calls s [] = s
  run_calls s (op ∷ ops) = run_calls (step s op) ops

-- The counts of the requests add up.
abbrev pub Balanced : Stats → Type 0
Balanced st = st.total_requests ≡ st.blocked_requests + (st.flagged_requests + st.safe_requests)

-- No identifier stands twice, the rules are as many as is shown, the log is bounded and the counts
-- add up.
abbrev pub IsValid : SystemState → Type 0
IsValid s =
    IsUnique s.rules
    × (s.stats.active_rules_count ≡ length s.rules)
    × (length s.logs ≤ 1001)
    × Balanced s.stats

length-count_match :
    (id : ℤ) (now : Bytes) (rs : List Rule) → length (count_match id now rs) ≡ length rs
unfolding count_match
length-count_match id now [] = refl
length-count_match id now (r ∷ rs) = ground (arith, length-count_match id now rs)

length-replace_rule : (r : Rule) (rs : List Rule) → length (replace_rule r rs) ≡ length rs
unfolding replace_rule
length-replace_rule r [] = refl
length-replace_rule r (x ∷ xs) = ground (arith, length-replace_rule r xs)

length-trim_logs : (es : List LogEntry) → length es ≤ 1001 → length (trim_logs es) ≤ 1000
unfolding trim_logs
length-trim_logs [] h = omega arith
length-trim_logs (e ∷ es) h = ground arith

count_status-Balanced :
    (status : Bytes) (st : Stats)
    → Balanced st
    → Balanced (count_status status st)
      × ((count_status status st).active_rules_count ≡ st.active_rules_count)
unfolding count_status
count_status-Balanced status st h = ground arith

module _ {F : Type 0} (files : Files F) where
  persist_state-state : (s : Store F) → (persist_state files s).0.state ≡ s.state
  unfolding persist_state
  persist_state-state s = refl

  add_log-IsValid :
      (s : Store F) (e : LogEntry) (now : Bytes) → IsValid s.state → IsValid (add_log s e now).state
  unfolding add_log
  add_log-IsValid s e now (u, c, l, b) = ground (
    arith,
    length-append (trim_logs s.state.logs) (with_status e ∷ []),
    length-trim_logs s.state.logs l,
    count_status-Balanced (with_status e).status s.state.stats b,
    length-count_match e.rule_id now s.state.rules,
    count_match-IsUnique e.rule_id now s.state.rules u,
  )

  add_safe_log-IsValid :
      (s : Store F) (e : LogEntry) → IsValid s.state → IsValid (add_safe_log s e).state
  unfolding add_safe_log
  add_safe_log-IsValid s e (u, c, l, b) = ground (
    arith,
    length-append (trim_logs s.state.logs)
        (record e { status = codes "Safe"; action = codes "Pass" } ∷ []),
    length-trim_logs s.state.logs l,
  )

  create_rule-IsValid :
      (s : Store F) (r : Rule) → IsValid s.state → IsValid (create_rule files s r).0.state
  unfolding create_rule persist_state
  create_rule-IsValid s r (u, c, l, b) = ground (
    arith,
    length-append s.state.rules (created r ∷ []),
    append-IsUnique s.state.rules (created r),
    u,
  )

  update_rule-IsValid :
      (s : Store F) (r : Rule) → IsValid s.state → IsValid (update_rule files s r).0.state
  unfolding update_rule persist_state
  update_rule-IsValid s r (u, c, l, b) = elim (Option-cases (find_rule r.id s.state.rules)) [
    | inl e ↦ ground (arith, e)
    | inr (old, e) ↦ ground (
      arith,
      e,
      length-replace_rule (updated old r) s.state.rules,
      replace_rule-IsUnique (updated old r) s.state.rules u,
    )
  ]

  delete_rule-IsValid :
      (s : Store F) (id : ℤ) → IsValid s.state → IsValid (delete_rule files s id).0.state
  unfolding delete_rule persist_state
  delete_rule-IsValid s id (u, c, l, b) = elim (Option-cases (find_rule id s.state.rules)) [
    | inl e ↦ ground (arith, e)
    | inr (old, e) ↦ ground (arith, e, remove_rule-IsUnique id s.state.rules u)
  ]

  merge_rules_from_file-IsValid :
      (s : Store F) → IsValid s.state → IsValid (merge_rules_from_file files s).0.state
  unfolding merge_rules_from_file
  merge_rules_from_file-IsValid s (u, c, l, b) = elim (Option-cases (load_custom_rules files s)) [
    | inl e ↦ ground (arith, e)
    | inr (custom, e) ↦ elim (Option-cases (load_crs_rules files s)) [
      | inl f ↦ ground (arith, e, f)
      | inr (crs, f) ↦ ground (arith, e, f, merge_rules-IsUnique crs custom s.state.rules)
    ]
  ]

  pub step-IsValid : (s : Store F) (op : Op) → IsValid s.state → IsValid (step files s op).state
  unfolding step enable_crs disable_crs increment_safe_request record_response_time
  step-IsValid s (log e now) h = add_log-IsValid s e now h
  step-IsValid s (safe_log e) h = add_safe_log-IsValid s e h
  step-IsValid s safe_request (u, c, l, b) = ground arith
  step-IsValid s (response d) h = h
  step-IsValid s (create r) h = create_rule-IsValid s r h
  step-IsValid s (update r) h = update_rule-IsValid s r h
  step-IsValid s (delete id) h = delete_rule-IsValid s id h
  step-IsValid s enable h = merge_rules_from_file-IsValid (record s { crs_on = true }) h
  step-IsValid s disable h = merge_rules_from_file-IsValid (record s { crs_on = false }) h

  -- From a valid state, any calls, failed ones included, lead to a valid state.
  pub run_calls-IsValid :
      (s : Store F) (ops : List Op) → IsValid s.state → IsValid (run_calls files s ops).state
  unfolding run_calls
  run_calls-IsValid s [] h = h
  run_calls-IsValid s (op ∷ ops) h = run_calls-IsValid (step files s op) ops (step-IsValid s op h)
