-- ===== src/Store/Kept.antt =====
-- Read-only rules stay through every run_calls, and the rules of the CRS even when it is switched off.
use obsidian.Common.Int.{ℤ, pos}
use obsidian.Common.{◌≡◌, ap, ◌∙◌, true, false, List, [], ◌∷◌, some, arith, Bool-cases, inl, inr}
use obsidian.Store.{Files, Rule, Store, same_id}
use obsidian.Store.Counts.{add_log, add_safe_log, increment_safe_request, record_response_time}
use obsidian.Store.Edit.{find_rule, is_protected}
use obsidian.Store.Find.{
  create_rule-find_rule, delete_rule-find_rule, find_rule-count_match,
  merge_rules_from_file-find_rule, update_rule-find_rule, without_counts,
}
use obsidian.Store.Load.{disable_crs, enable_crs}
use obsidian.Store.Valid.{
  IsValid, Op, create, delete, disable, enable, log, response, run_calls, safe_log, safe_request,
  step, step-IsValid, update,
}

-- But for the counts of its matches, the rule is found under its identifier.
abbrev pub Keeps : Rule → List Rule → Type 0
Keeps r rs = (x : Rule) × (find_rule r.id rs ≡ some x) × (without_counts x ≡ without_counts r)

is_protected_same :
    (x r : Rule)
    → without_counts x ≡ without_counts r
    → is_protected r ≡ true
    → is_protected x ≡ true
unfolding is_protected
is_protected_same x r e h = ap is_protected e ∙ h

module _ {F : Type 0} (files : Files F) where
  step-Keeps :
      (s : Store F) (op : Op) (r : Rule)
      → IsValid s.state
      → is_protected r ≡ true
      → Keeps r s.state.rules
      → Keeps r (step files s op).state.rules
  unfolding step enable_crs disable_crs increment_safe_request record_response_time add_safe_log
      add_log
  step-Keeps s (log e now) r v p (x, h, k) = elim (Bool-cases (same_id e.rule_id (pos 0))) [
    | inl f ↦ (x, ground (arith, f, h), k)
    | inr f ↦
        (let (y, g, l) = find_rule-count_match r.id e.rule_id now s.state.rules x h in
          (y, ground (arith, f, g), l ∙ k))
  ]
  step-Keeps s (safe_log e) r v p k = k
  step-Keeps s safe_request r v p k = k
  step-Keeps s (response d) r v p k = k
  step-Keeps s (create given) r v p (x, h, k) = (x, create_rule-find_rule files s given r.id x h, k)
  step-Keeps s (update given) r v p (x, h, k) =
      (x, update_rule-find_rule files s given r.id x (is_protected_same x r k p) h, k)
  step-Keeps s (delete id) r v p (x, h, k) =
      (x, delete_rule-find_rule files s id r.id x (is_protected_same x r k p) h, k)
  step-Keeps s enable r v p (x, h, k) =
      (x, merge_rules_from_file-find_rule files (record s { crs_on = true }) r.id x v.0 h, k)
  step-Keeps s disable r v p (x, h, k) =
      (x, merge_rules_from_file-find_rule files (record s { crs_on = false }) r.id x v.0 h, k)

  -- From a valid state, a rule that is read-only or of the CRS stays under its identifier through
  -- any calls, the deletions and updates of this identifier included; only the counts of its matches
  -- change.
  pub run_calls-Keeps :
      (s : Store F) (ops : List Op) (r : Rule)
      → IsValid s.state
      → is_protected r ≡ true
      → Keeps r s.state.rules
      → Keeps r (run_calls files s ops).state.rules
  unfolding run_calls
  run_calls-Keeps s [] r v p k = k
  run_calls-Keeps s (op ∷ ops) r v p k =
      run_calls-Keeps (step files s op) ops r (step-IsValid files s op v) p
        (step-Keeps s op r v p k)

  -- In a valid state, where no identifier stands twice, switching the CRS off removes no rule: what was
  -- found under an identifier is found after it.
  pub disable_crs-find_rule :
      (s : Store F) (id : ℤ) (x : Rule)
      → IsValid s.state
      → find_rule id s.state.rules ≡ some x
      → find_rule id (disable_crs files s).0.state.rules ≡ some x
  unfolding disable_crs
  disable_crs-find_rule s id x v h =
      merge_rules_from_file-find_rule files (record s { crs_on = false }) id x v.0 h
