-- ===== src/Waf.antt =====
-- `wafMiddleware` of cmd/obsidian/main.go: a request meets the threat intelligence, the engine and the
-- handlers, and is logged in the store. `Engine` stands for a transaction of the Coraza engine and
-- `next` for the handlers. The calls of PostgreSQL and of the metrics, and the recovery from a panic,
-- are left out, as is what closes the transaction.
pub mod Attack
mod Attributed
pub mod Flow
pub mod Refused
mod Tests
use obsidian.Alerts
use obsidian.Common.Int.{ℤ}
use obsidian.Common.{ℕ, Bool, List, Option, Bytes}
use obsidian.Security
use obsidian.Store
use obsidian.Threat.{ThreatIntel}

pub record HttpRequest : Type 0 where
  pub remote_addr : Bytes
  pub forwarded_for : Bytes
  pub real_ip : Bytes
  pub method : Bytes
  pub url : Bytes
  pub path : Bytes
  pub proto : Bytes
  pub headers : List (Bytes × Bytes)
  pub body : Bytes

pub record HttpResponse : Type 0 where
  pub status : ℕ
  pub headers : List (Bytes × Bytes)
  pub body : Bytes

-- `types.Interruption`, with the fields that are read.
pub record Interruption : Type 0 where
  pub rule_id : ℤ
  pub action : Bytes

pub record Engine (T : Type 0) : Type 0 where
  pub new_transaction : T
  pub process_connection : T → Bytes → T
  pub process_uri : T → Bytes → Bytes → Bytes → T
  pub add_request_header : T → Bytes → Bytes → T
  pub process_request_headers : T → T × Option Interruption
  pub process_request_body : T → T × Option Interruption
  pub add_response_header : T → Bytes → Bytes → T
  pub process_response_headers : T → ℕ → Bytes → T × Option Interruption
  pub is_interrupted : T → Bool
  pub matched_rules : T → List ℤ

-- The managers that the middleware uses.
pub record Waf (F Net : Type 0) : Type 0 where
  pub security : Security.Manager Net
  pub intel : ThreatIntel Net
  pub store : Store.Store F
  pub alerts : Alerts.Service

pub data Outcome : Type 0 where
  served : HttpResponse → Outcome
  -- 403 before the handlers
  refused : Outcome
