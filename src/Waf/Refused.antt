-- ===== src/Waf/Refused.antt =====
-- What the middleware refuses and how it is counted.
use obsidian.Common.{
  ℕ, suc, ◌≡◌, ◌⊎◌, refl, inl, inr, Bool, true, false, some, arith, Bytes, codes, same,
}
use obsidian.Security.{NetLib}
use obsidian.Store.{LogEntry, Stats, Store}
use obsidian.Store.Counts.{add_log, count_status}
use obsidian.Threat.{ThreatEntry, check_ip, record_hit}
use obsidian.Waf.{Engine, HttpRequest, HttpResponse, Outcome, Waf, refused, served}
use obsidian.Waf.Flow.{
  client_ip, inspect_request, process_interruption, request_transaction, serve, threat_entry,
  waf_middleware,
}

-- A refused request is counted once, as blocked; a served one at most once, and not as blocked.
abbrev pub Counted : Stats → Stats → Outcome → Type 0
Counted before after refused =
    (after.blocked_requests ≡ suc before.blocked_requests)
    × (after.total_requests ≡ suc before.total_requests)
Counted before after (served response) =
    (after.blocked_requests ≡ before.blocked_requests)
    × ((after.total_requests ≡ before.total_requests)
        ⊎ (after.total_requests ≡ suc before.total_requests))

abbrev pub is_refused : Outcome → Bool
is_refused refused = true
is_refused (served response) = false

module _ {F : Type 0} where
  add_log-refused :
      (s : Store F) (e : LogEntry) (now : Bytes)
      → (e.status ≡ codes "Blocked") ⊎ (e.status ≡ codes "ThreatBlocked")
      → Counted s.state.stats (add_log s e now).state.stats refused
  unfolding add_log count_status same
  add_log-refused s e now (inl h) = ground (arith, h)
  add_log-refused s e now (inr h) = ground (arith, h)

module _ {Ip Net F T : Type 0} (net : NetLib Ip Net) (engine : Engine T)
    (next : Waf F Net → HttpRequest → Waf F Net × HttpResponse) where
  -- A client that the threat intelligence holds is refused, whatever the engine and the handlers do: its
  -- address gets a hit, and the refusal is counted as blocked.
  pub waf_middleware-check_ip :
      (w : Waf F Net) (r : HttpRequest) (time : ℕ) (now : Bytes) (e : ThreatEntry)
      → check_ip net w.intel (client_ip net engine next w r) ≡ some e
      → (((waf_middleware net engine next w r time now).1 ≡ refused)
          × ((waf_middleware net engine next w r time now).0.intel
              ≡ record_hit w.intel (client_ip net engine next w r) time))
        × ((waf_middleware net engine next w r time now).0.store.state.stats.blocked_requests
            ≡ suc w.store.state.stats.blocked_requests)
  unfolding waf_middleware
  waf_middleware-check_ip w r time now e held =
      rw (held, waf_middleware)
        (
          (refl, refl),
          (add_log-refused w.store (threat_entry (client_ip net engine next w r)) now (inr refl)).0,
        )

  -- Whether a request is refused does not depend on its body.
  pub waf_middleware-body :
      (w : Waf F Net) (r : HttpRequest) (body : Bytes) (time : ℕ) (now : Bytes)
      → is_refused (waf_middleware net engine next w (record r { body = body }) time now).1
        ≡ is_refused (waf_middleware net engine next w r time now).1
  unfolding waf_middleware inspect_request client_ip request_transaction process_interruption serve
  waf_middleware-body w r body time now = ground arith
