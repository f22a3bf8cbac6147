-- ===== src/Alerts/Posted.antt =====
-- Whom processAlert posts an alert to.
use mathlib.Core.List.{Memᴰ}
use obsidian.Common.Map.{Map}
use obsidian.Common.{
  ℕ, ◌≤◌, ◌≡◌, ◌⊎◌, refl, sym, inl, inr, Bool, true, false, if◌then◌else◌, List, [], ◌∷◌, some,
  arith, Bytes, any, same, same_iff, Bool-cases,
}
use obsidian.Alerts.{Alert, Service, WebhookConfig, level, severity_allowed, type_allowed}
use obsidian.Alerts.Deliver.{process_alert, process_webhook, process_webhooks, wants}

-- The webhook is on, admits every type or that of the alert, and asks for no higher severity, where
-- both severities are known.
abbrev pub Accepts : WebhookConfig → Alert → Type 0
Accepts wh alert =
    (wh.enabled ≡ true)
    × ((wh.alert_types ≡ []) ⊎ Memᴰ alert.kind wh.alert_types)
    × ((a b : ℕ) → level alert.severity ≡ some a → level wh.min_severity ≡ some b → b ≤ a)

any-Mem : (x : Bytes) (ts : List Bytes) → any (λ t. same t x) ts ≡ true → Memᴰ x ts
any-Mem x [] h = cc
any-Mem x (t ∷ ts) h = elim (Bool-cases (same t x)) [
  | inl e ↦ Memᴰ.head (sym ((same_iff t x).0 e))
  | inr e ↦ Memᴰ.tail (any-Mem x ts (ground (arith, h, e)))
]

type_allowed-Mem : (x : Bytes) (ts : List Bytes) → type_allowed x ts ≡ true → (ts ≡ []) ⊎ Memᴰ x ts
unfolding type_allowed
type_allowed-Mem x [] h = inl refl
type_allowed-Mem x (t ∷ ts) h = inr (any-Mem x (t ∷ ts) h)

wants-Accepts : (wh : WebhookConfig) (alert : Alert) → wants wh alert ≡ true → Accepts wh alert
unfolding wants severity_allowed
wants-Accepts wh alert h = (
  ground (arith, h),
  type_allowed-Mem alert.kind wh.alert_types (ground (arith, h)),
  (λ a b e f. ground (arith, h, e, f)),
)

Mem-if :
    (b : Bool) (x name : Bytes) (names : List Bytes)
    → Memᴰ name (if b then x ∷ names else names)
    → ((b ≡ true) × (name ≡ x)) ⊎ Memᴰ name names
Mem-if true x name names (Memᴰ.head e) = inl (refl, e)
Mem-if true x name names (Memᴰ.tail m) = inr m
Mem-if false x name names m = inr m

module _ (post : WebhookConfig → Alert → Bool) where
  process_webhook-wants :
      (s : Service) (wh : WebhookConfig) (alert : Alert) (now : ℕ)
      → (process_webhook post s wh alert now).1 ≡ true
      → wants wh alert ≡ true
  unfolding process_webhook
  process_webhook-wants s wh alert now h = ground arith

  process_webhooks-Accepts :
      (s : Service) (rest : Map WebhookConfig) (alert : Alert) (clock : WebhookConfig → ℕ)
      (name : Bytes)
      → Memᴰ name (process_webhooks post s rest alert clock).1
      → (key : Bytes) × (wh : WebhookConfig) × Memᴰ (key, wh) rest
        × (wh.name ≡ name)
        × Accepts wh alert
  unfolding process_webhooks
  process_webhooks-Accepts s [] alert clock name m = elim m [ ]
  process_webhooks-Accepts s ((key, wh) ∷ rest) alert clock name m =
      let (s', posted) = process_webhook post s wh alert (clock wh) in
      elim (Mem-if posted wh.name name (process_webhooks post s' rest alert clock).1 m) [
        | inl (p, e) ↦ (
          key,
          wh,
          Memᴰ.head refl,
          sym e,
          wants-Accepts wh alert (process_webhook-wants s wh alert (clock wh) p),
        )
        | inr later ↦
            (let (k, w, found, e, a) = process_webhooks-Accepts s' rest alert clock name later in
              (k, w, Memᴰ.tail found, e, a))
      ]

  -- An alert is posted only to webhooks that are on, that admit its type or every type, and that ask
  -- for no higher severity, where both severities are known.
  pub process_alert-Accepts :
      (s : Service) (alert : Alert) (clock : WebhookConfig → ℕ) (name : Bytes)
      → Memᴰ name (process_alert post s alert clock).1
      → (key : Bytes) × (wh : WebhookConfig) × Memᴰ (key, wh) s.webhooks
        × (wh.name ≡ name)
        × Accepts wh alert
  unfolding process_alert
  process_alert-Accepts s alert clock name m =
      process_webhooks-Accepts s s.webhooks alert clock name m
