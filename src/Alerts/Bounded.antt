-- ===== src/Alerts/Bounded.antt =====
-- The limits of the webhooks, when one sender runs at a time.
use mathlib.Core.Path.{subst}
use obsidian.Common.Map.{Map, insert, lookup, lookup-insert}
use obsidian.Common.{
  ℕ, ◌≤◌, ◌≡◌, refl, ap, ◌∙◌, inl, inr, Bool, true, [], ◌∷◌, Option, none, some, arith, All,
  All-weaken, Bytes, same, same_iff, same_refl, Bool-cases, Option-cases,
}
use obsidian.Alerts.{
  Alert, RateLimitConfig, Service, WebhookConfig, WebhookState, check_rate_limit,
  increment_rate_limit_counters, is_below, limit_of, one_more, reset_windows,
}
use obsidian.Alerts.Deliver.{process_webhook, process_webhooks, wants}
use obsidian.Alerts.Senders.{reset_windows_le}

abbrev pub Within : WebhookState → RateLimitConfig → Type 0
Within st limit = (st.minute_count ≤ limit.max_per_minute) × (st.hour_count ≤ limit.max_per_hour)

-- No webhook's count is above its limit.
abbrev pub Fits : Service → Type 0
Fits s =
    (name : Bytes) (wh : WebhookConfig) (st : WebhookState)
    → lookup name s.webhooks ≡ some wh
    → lookup name s.states ≡ some st
    → Within st (limit_of s wh.rate_limit)

insert-Fits :
    (s : Service) (name : Bytes) (st : WebhookState)
    → ((wh : WebhookConfig)
        → lookup name s.webhooks ≡ some wh
        → Within st (limit_of s wh.rate_limit))
    → Fits s
    → Fits (record s { states = insert name st s.states })
insert-Fits s name st w h k wh x e f = elim (Bool-cases (same name k)) [
  | inl g ↦
      let is_st : st ≡ x = ground (arith, f, g, lookup-insert name k st s.states) in
      subst (λ y. Within y (limit_of s wh.rate_limit)) is_st
        (w wh (ap (λ j. lookup j s.webhooks) ((same_iff name k).0 g) ∙ e))
  | inr g ↦ h k wh x e (ground (arith, f, g, lookup-insert name k st s.states))
]

check_rate_limit-Fits :
    (s : Service) (name : Bytes) (cfg : Option RateLimitConfig) (now : ℕ)
    → Fits s
    → Fits (check_rate_limit s name cfg now).0
unfolding check_rate_limit
check_rate_limit-Fits s name cfg now h = elim (Option-cases (lookup name s.states)) [
  | inl e ↦ rw (e, check_rate_limit) h
  | inr (st, e) ↦
      rw (e, check_rate_limit)
        (insert-Fits s name (reset_windows st now)
          (λ wh f. ground (arith, reset_windows_le st now, h name wh st f e)) h)
]

check_rate_limit-state :
    (s : Service) (name : Bytes) (cfg : Option RateLimitConfig) (now : ℕ) (st : WebhookState)
    → (check_rate_limit s name cfg now).1 ≡ true
    → lookup name (check_rate_limit s name cfg now).0.states ≡ some st
    → is_below st (limit_of s cfg) ≡ true
unfolding check_rate_limit
check_rate_limit-state s name cfg now st h e = elim (Option-cases (lookup name s.states)) [
  | inl f ↦ absurd (ground (arith, e, f))
  | inr (old, f) ↦
      let is_st : reset_windows old now ≡ st =
        ground
          (arith, e, f, same_refl name, lookup-insert name name (reset_windows old now) s.states) in
      subst (λ x. is_below x (limit_of s cfg) ≡ true) is_st (ground (arith, h, f))
]

increment_rate_limit_counters-Fits :
    (s : Service) (wh : WebhookConfig)
    → lookup wh.name s.webhooks ≡ some wh
    → ((st : WebhookState)
        → lookup wh.name s.states ≡ some st
        → is_below st (limit_of s wh.rate_limit) ≡ true)
    → Fits s
    → Fits (increment_rate_limit_counters s wh.name)
unfolding increment_rate_limit_counters
increment_rate_limit_counters-Fits s wh known below h =
    elim (Option-cases (lookup wh.name s.states)) [
      | inl e ↦ rw (e, increment_rate_limit_counters) h
      | inr (st, e) ↦
          rw (e, increment_rate_limit_counters)
            (insert-Fits s wh.name (one_more st)
              (λ w f.
                let is_w : wh ≡ w = ground (arith, known, f) in
                subst (λ y. Within (one_more st) (limit_of s y.rate_limit)) is_w
                  (ground (arith, below st e)))
              h)
    ]

-- What no delivery changes.
abbrev pub SameWebhooks : Service → Service → Type 0
SameWebhooks a b = (a.webhooks ≡ b.webhooks) × (a.default_rate_limit ≡ b.default_rate_limit)

check_rate_limit-SameWebhooks :
    (s : Service) (name : Bytes) (cfg : Option RateLimitConfig) (now : ℕ)
    → SameWebhooks (check_rate_limit s name cfg now).0 s
unfolding check_rate_limit
check_rate_limit-SameWebhooks s name cfg now = ground arith

pub limit_of_same :
    (a b : Service) (cfg : Option RateLimitConfig)
    → a.default_rate_limit ≡ b.default_rate_limit
    → limit_of a cfg ≡ limit_of b cfg
limit_of_same a b none e = e
limit_of_same a b (some limit) e = refl

module _ (post : WebhookConfig → Alert → Bool) where
  pub process_webhook-SameWebhooks :
      (s : Service) (wh : WebhookConfig) (alert : Alert) (now : ℕ)
      → SameWebhooks (process_webhook post s wh alert now).0 s
  unfolding process_webhook increment_rate_limit_counters
  process_webhook-SameWebhooks s wh alert now =
      ground (arith, check_rate_limit-SameWebhooks s wh.name wh.rate_limit now)

  process_webhook-Fits :
      (s : Service) (wh : WebhookConfig) (alert : Alert) (now : ℕ)
      → lookup wh.name s.webhooks ≡ some wh
      → Fits s
      → Fits (process_webhook post s wh alert now).0
  unfolding process_webhook
  process_webhook-Fits s wh alert now known h =
      let checked = check_rate_limit s wh.name wh.rate_limit now in
      let fits = check_rate_limit-Fits s wh.name wh.rate_limit now h in
      let (same_hooks, same_limit) = check_rate_limit-SameWebhooks s wh.name wh.rate_limit now in
      elim (Bool-cases (wants wh alert)) [
        | inr e ↦ rw (e, process_webhook) h
        | inl e ↦ elim (Bool-cases (checked.1)) [
          | inr f ↦ rw (e, f, process_webhook) fits
          | inl f ↦ elim (Bool-cases (post wh alert)) [
            | inr g ↦ rw (e, f, g, process_webhook) fits
            | inl g ↦
                rw (e, f, g, process_webhook)
                  (increment_rate_limit_counters-Fits checked.0 wh
                    (ap (lookup wh.name) same_hooks ∙ known)
                    (λ st x.
                      ap (is_below st) (limit_of_same checked.0 s wh.rate_limit same_limit)
                      ∙ check_rate_limit-state s wh.name wh.rate_limit now st f x)
                    fits)
          ]
        ]
      ]

  pub process_webhooks-Fits :
      (s : Service) (rest : Map WebhookConfig) (alert : Alert) (clock : WebhookConfig → ℕ)
      → All (λ p. lookup p.1.name s.webhooks ≡ some p.1) rest
      → Fits s
      → Fits (process_webhooks post s rest alert clock).0
        × SameWebhooks (process_webhooks post s rest alert clock).0 s
  unfolding process_webhooks
  process_webhooks-Fits s [] alert clock k h = (h, (refl, refl))
  process_webhooks-Fits s ((name, wh) ∷ rest) alert clock (k, ks) h =
      let next = process_webhook post s wh alert (clock wh) in
      let (hooks, limit) = process_webhook-SameWebhooks s wh alert (clock wh) in
      let (fits, (hooks', limit')) =
        process_webhooks-Fits next.0 rest alert clock
          (All-weaken (λ p. lookup p.1.name s.webhooks ≡ some p.1)
            (λ p e. ap (lookup p.1.name) hooks ∙ e) rest ks)
          (process_webhook-Fits s wh alert (clock wh) k h) in
      (fits, (hooks' ∙ hooks, limit' ∙ limit))
