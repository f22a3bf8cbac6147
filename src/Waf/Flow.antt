-- ===== src/Waf/Flow.antt =====
-- The middleware itself. The manager of the proxies exists, as main.go makes one. For the texts of a
-- log entry, which the store does not read, stands the client's address, or the category of a block.
use obsidian.Alerts
use obsidian.Common.Int.{ℤ, pos}
use obsidian.Common.{
  ℕ, Bool, ◌||◌, List, [], ◌∷◌, none, some, Bytes, codes, same, any, has_prefix, if◌then◌else◌,
}
use obsidian.Security
use obsidian.Security.{NetLib}
use obsidian.Store.{LogEntry}
use obsidian.Store.Counts.{add_log, add_safe_log, increment_safe_request}
use obsidian.Threat.{check_ip, record_hit}
use obsidian.Waf.{Engine, HttpRequest, HttpResponse, Interruption, Outcome, Waf, refused, served}
use obsidian.Waf.Attack.{classify_rule_id, resolve_attack_rule_id}

-- `strings.HasSuffix(s, p)`
unfoldable pub has_suffix : Bytes → Bytes → Bool
has_suffix [] p = same [] p
has_suffix (c ∷ s) p = let rest = has_suffix s p in same (c ∷ s) p || rest

unfoldable pub is_static_asset : Bytes → Bool
is_static_asset path =
    any (has_prefix path) (codes "/css/" ∷ codes "/js/" ∷ codes "/assets/" ∷ [])
    || any (has_suffix path) (
        codes ".css"
        ∷ codes ".js"
        ∷ codes ".png"
        ∷ codes ".jpg"
        ∷ codes ".svg"
        ∷ codes ".ico"
        ∷ codes ".woff"
        ∷ codes ".woff2"
        ∷ [])

abbrev pub threat_entry : Bytes → LogEntry
threat_entry ip = record {
  rule_id = pos 0;
  action = codes "Deny";
  status = codes "ThreatBlocked";
  rest = ip;
}

abbrev pub block_entry : ℤ → Bytes → LogEntry
block_entry id action = record {
  rule_id = id;
  action = action;
  status = codes "Blocked";
  rest = classify_rule_id id;
}

abbrev pub safe_entry : Bytes → LogEntry
safe_entry ip = record { rule_id = pos 0; action = codes "Pass"; status = codes "Safe"; rest = ip }

-- The alerts of AlertThreatIntel and AlertWAFBlock.
abbrev pub threat_alert : Alerts.Alert
threat_alert = record { kind = codes "threat_intel"; severity = codes "high" }

abbrev pub block_alert : Alerts.Alert
block_alert = record { kind = codes "waf"; severity = codes "medium" }

module _ {Ip Net F T : Type 0} (net : NetLib Ip Net) (engine : Engine T)
    (next : Waf F Net → HttpRequest → Waf F Net × HttpResponse) where
  unfoldable pub client_ip : Waf F Net → HttpRequest → Bytes
  client_ip w r = Security.extract_client_ip net w.security r.remote_addr r.forwarded_for r.real_ip

  unfoldable pub add_request_headers : T → List (Bytes × Bytes) → T
  add_request_headers tx [] = tx
  add_request_headers tx ((k, v) ∷ hs) = add_request_headers (engine.add_request_header tx k v) hs

  unfoldable pub add_response_headers : T → List (Bytes × Bytes) → T
  add_response_headers tx [] = tx
  add_response_headers tx ((k, v) ∷ hs) =
      add_response_headers (engine.add_response_header tx k v) hs

  -- The transaction after the connection, the URI and the headers of the request.
  unfoldable pub request_transaction : HttpRequest → T
  request_transaction r =
      add_request_headers
        (engine.process_uri (engine.process_connection engine.new_transaction r.remote_addr) r.url
          r.method r.proto)
        r.headers

  -- `processInterruption`; `now` is the formatted time.
  unfoldable pub process_interruption :
      Waf F Net → Interruption → T → HttpRequest → Bytes → Waf F Net × Outcome
  process_interruption w it tx r now =
      let id = resolve_attack_rule_id it.rule_id (engine.matched_rules tx) in
      (
        record w {
          alerts = (Alerts.send w.alerts block_alert).0;
          store = add_log w.store (block_entry id it.action) now;
        },
        refused,
      )

  -- The log of a response: an interruption of the response is not logged.
  unfoldable pub log_served : Waf F Net → T → HttpRequest → Bytes → Waf F Net
  log_served w tx r ip = if engine.is_interrupted tx then w else record w {
    store =
        if is_static_asset r.path
        then increment_safe_request w.store
        else add_safe_log w.store (safe_entry ip);
  }

  unfoldable pub serve : Waf F Net → T → HttpRequest → Bytes → Waf F Net × Outcome
  serve w tx r ip =
      let (w', response) = next w r in
      let (tx', it) =
        engine.process_response_headers (add_response_headers tx response.headers) response.status
          (codes "HTTP/1.1") in
      (log_served w' tx' r ip, served response)

  unfoldable pub inspect_request : Waf F Net → HttpRequest → Bytes → Bytes → Waf F Net × Outcome
  inspect_request w r ip now =
      let (tx, it) = engine.process_request_headers (request_transaction r) in
      elim it [
        | some i ↦ process_interruption w i tx r now
        | none ↦
            let (tx', it') = engine.process_request_body tx in
            elim it' [ some i ↦ process_interruption w i tx' r now | none ↦ serve w tx' r ip ]
      ]

  unfoldable pub waf_middleware : Waf F Net → HttpRequest → ℕ → Bytes → Waf F Net × Outcome
  waf_middleware w r time now =
      let ip = client_ip w r in
      elim (check_ip net w.intel ip) [
        | some e ↦ (
          record w {
            intel = record_hit w.intel ip time;
            alerts = (Alerts.send w.alerts threat_alert).0;
            store = add_log w.store (threat_entry ip) now;
          },
          refused,
        )
        | none ↦
            if same r.path (codes "/api/ws")
            then (let (w', response) = next w r in (w', served response))
            else inspect_request w r ip now
      ]
