-- ===== src/Alerts/Sent.antt =====
-- The deliveries of a run with one sender at a time, counted apart from the counters of the service.
use mathlib.Core.Path.{subst}
use obsidian.Common.Map.{Map, lookup, lookup-insert}
use obsidian.Common.{
  ℕ, ◌+◌, ◌≤◌, ◌<◌, ◌≡◌, refl, sym, ◌∙◌, inl, inr, Bool, false, ◌&&◌, List, [], ◌∷◌, Option, some,
  arith, Bytes, same, same_iff, same_refl, Bool-cases, Option-cases, if◌then◌else◌,
}
use obsidian.Alerts.{
  Alert, RateLimitConfig, Service, WebhookConfig, WebhookState, check_rate_limit, has_passed, hour,
  increment_rate_limit_counters, minute, one_more, reset_windows,
}
use obsidian.Alerts.Bounded.{Within}
use obsidian.Alerts.Deliver.{process_webhook, process_webhooks, wants}
use obsidian.Alerts.Run.{Op, add, immediate, queue, remove, step, worker}

-- The two windows of a limit.
pub data Window : Type 0 where
  per_minute per_hour : Window

abbrev pub count_in : Window → WebhookState → ℕ
count_in per_minute st = st.minute_count
count_in per_hour st = st.hour_count

abbrev pub start_of : Window → WebhookState → Option ℕ
start_of per_minute st = st.last_minute
start_of per_hour st = st.last_hour

abbrev pub span : Window → ℕ
span per_minute = minute
span per_hour = hour

abbrev pub max_of : Window → RateLimitConfig → ℕ
max_of per_minute limit = limit.max_per_minute
max_of per_hour limit = limit.max_per_hour

-- The window started at `from` and counts `n` deliveries.
abbrev pub Counts : Window → ℕ → ℕ → WebhookState → Type 0
Counts w from n st = (start_of w st ≡ some from) × (count_in w st ≡ n)

reset_windows-Counts :
    (w : Window) (from n now : ℕ) (st : WebhookState)
    → Counts w from n st
    → now < from + span w
    → Counts w from n (reset_windows st now)
unfolding reset_windows has_passed
reset_windows-Counts per_minute from n now st (a, b) h = ground (arith, a, b, h)
reset_windows-Counts per_hour from n now st (a, b) h = ground (arith, a, b, h)

one_more-Counts :
    (w : Window) (from n : ℕ) (st : WebhookState)
    → Counts w from n st
    → Counts w from (n + 1) (one_more st)
one_more-Counts per_minute from n st (a, b) = (a, omega (arith, b))
one_more-Counts per_hour from n st (a, b) = (a, omega (arith, b))

pub Within-max_of :
    (w : Window) (st : WebhookState) (limit : RateLimitConfig)
    → Within st limit
    → count_in w st ≤ max_of w limit
Within-max_of per_minute st limit h = h.0
Within-max_of per_hour st limit h = h.1

module _ (post : WebhookConfig → Alert → Bool) (name : Bytes) where
  -- 1 if the round delivers the alert to the webhook `name`.
  abbrev pub sent_to : Service → WebhookConfig → Alert → ℕ → ℕ
  sent_to s wh alert now =
      if same wh.name name && (process_webhook post s wh alert now).1 && post wh alert then 1 else 0

  abbrev pub sent_round : Service → Map WebhookConfig → Alert → (WebhookConfig → ℕ) → ℕ
  sent_round s [] alert clock = 0
  sent_round s ((key, wh) ∷ rest) alert clock =
      sent_to s wh alert (clock wh)
      + sent_round (process_webhook post s wh alert (clock wh)).0 rest alert clock

  abbrev pub sent_by : Service → List Alert → (WebhookConfig → ℕ) → ℕ
  sent_by s [] clock = 0
  sent_by s (alert ∷ rest) clock = sent_round (record s { queue = rest }) s.webhooks alert clock

  -- The deliveries to the webhook `name` in a call and in a run.
  abbrev pub sent_in : Service → Op → ℕ
  sent_in s (add wh) = 0
  sent_in s (remove other) = 0
  sent_in s (queue alert) = 0
  sent_in s (worker clock) = sent_by s s.queue clock
  sent_in s (immediate alert clock) = sent_round s s.webhooks alert clock

  abbrev pub sent_run : Service → List Op → ℕ
  sent_run s [] = 0
  sent_run s (op ∷ ops) = sent_in s op + sent_run (step post s op) ops

  -- The counters that the service keeps of the webhook.
  abbrev pub Keeps : Window → ℕ → ℕ → Service → Type 0
  Keeps w from n s = (st : WebhookState) × (lookup name s.states ≡ some st) × Counts w from n st

  check_rate_limit-other :
      (s : Service) (other : Bytes) (cfg : Option RateLimitConfig) (now : ℕ)
      → same other name ≡ false
      → lookup name (check_rate_limit s other cfg now).0.states ≡ lookup name s.states
  unfolding check_rate_limit
  check_rate_limit-other s other cfg now e = elim (Option-cases (lookup other s.states)) [
    | inl f ↦ ground (arith, f)
    | inr (st, f) ↦ ground (arith, e, f, lookup-insert other name (reset_windows st now) s.states)
  ]

  increment_rate_limit_counters-other :
      (s : Service) (other : Bytes)
      → same other name ≡ false
      → lookup name (increment_rate_limit_counters s other).states ≡ lookup name s.states
  unfolding increment_rate_limit_counters
  increment_rate_limit_counters-other s other e = elim (Option-cases (lookup other s.states)) [
    | inl f ↦ ground (arith, f)
    | inr (st, f) ↦ ground (arith, e, f, lookup-insert other name (one_more st) s.states)
  ]

  process_webhook-other :
      (s : Service) (wh : WebhookConfig) (alert : Alert) (now : ℕ)
      → same wh.name name ≡ false
      → lookup name (process_webhook post s wh alert now).0.states ≡ lookup name s.states
  unfolding process_webhook
  process_webhook-other s wh alert now e = ground (
    arith,
    check_rate_limit-other s wh.name wh.rate_limit now e,
    increment_rate_limit_counters-other (check_rate_limit s wh.name wh.rate_limit now).0 wh.name e,
  )

  check_rate_limit-Keeps :
      (w : Window) (from n : ℕ) (s : Service) (cfg : Option RateLimitConfig) (now : ℕ)
      → Keeps w from n s
      → now < from + span w
      → Keeps w from n (check_rate_limit s name cfg now).0
  unfolding check_rate_limit
  check_rate_limit-Keeps w from n s cfg now (st, e, c) inside = (
    reset_windows st now,
    ground (arith, e, same_refl name, lookup-insert name name (reset_windows st now) s.states),
    reset_windows-Counts w from n now st c inside,
  )

  increment_rate_limit_counters-Keeps :
      (w : Window) (from n : ℕ) (s : Service)
      → Keeps w from n s
      → Keeps w from (n + 1) (increment_rate_limit_counters s name)
  unfolding increment_rate_limit_counters
  increment_rate_limit_counters-Keeps w from n s (st, e, c) = (
    one_more st,
    ground (arith, e, same_refl name, lookup-insert name name (one_more st) s.states),
    one_more-Counts w from n st c,
  )

  pub lookup-Keeps :
      (w : Window) (from n m : ℕ) (s t : Service)
      → n ≡ m
      → lookup name t.states ≡ lookup name s.states
      → Keeps w from n s
      → Keeps w from m t
  lookup-Keeps w from n m s t e f (st, g, c) = (st, f ∙ g, (c.0, c.1 ∙ e))

  -- A round for the webhook itself counts exactly what it delivers.
  own-Keeps :
      (w : Window) (from n : ℕ) (s : Service) (wh : WebhookConfig) (alert : Alert) (now : ℕ)
      → wh.name ≡ name
      → Keeps w from n s
      → now < from + span w
      → Keeps w from (n + sent_to s wh alert now) (process_webhook post s wh alert now).0
  unfolding process_webhook
  own-Keeps w from n s wh alert now own k inside =
      let checked = check_rate_limit s wh.name wh.rate_limit now in
      let kept : Keeps w from n checked.0 =
        subst (λ other. Keeps w from n (check_rate_limit s other wh.rate_limit now).0) (sym own)
          (check_rate_limit-Keeps w from n s wh.rate_limit now k inside) in
      let it = (same_iff wh.name name).1 own in
      elim (Bool-cases (wants wh alert)) [
        | inr e ↦ rw (it, e, process_webhook) (lookup-Keeps w from n _ s s (omega arith) refl k)
        | inl e ↦ elim (Bool-cases (checked.1)) [
          | inr f ↦
              rw (it, e, f, process_webhook)
                (lookup-Keeps w from n _ checked.0 checked.0 (omega arith) refl kept)
          | inl f ↦ elim (Bool-cases (post wh alert)) [
            | inr g ↦
                rw (it, e, f, g, process_webhook)
                  (lookup-Keeps w from n _ checked.0 checked.0 (omega arith) refl kept)
            | inl g ↦
                rw (it, e, f, g, process_webhook)
                  (subst
                    (λ other. Keeps w from (n + 1) (increment_rate_limit_counters checked.0 other))
                    (sym own) (increment_rate_limit_counters-Keeps w from n checked.0 kept))
          ]
        ]
      ]

  process_webhook-Keeps :
      (w : Window) (from n : ℕ) (s : Service) (wh : WebhookConfig) (alert : Alert) (now : ℕ)
      → Keeps w from n s
      → (wh.name ≡ name → now < from + span w)
      → Keeps w from (n + sent_to s wh alert now) (process_webhook post s wh alert now).0
  process_webhook-Keeps w from n s wh alert now k inside = elim (Bool-cases (same wh.name name)) [
    | inl e ↦
        let own = (same_iff wh.name name).0 e in
        own-Keeps w from n s wh alert now own k (inside own)
    | inr e ↦
        lookup-Keeps w from n _ s (process_webhook post s wh alert now).0 (ground (arith, e))
          (process_webhook-other s wh alert now e) k
  ]

  pub process_webhooks-Keeps :
      (w : Window) (from n : ℕ) (s : Service) (rest : Map WebhookConfig) (alert : Alert)
      (clock : WebhookConfig → ℕ)
      → Keeps w from n s
      → ((wh : WebhookConfig) → wh.name ≡ name → clock wh < from + span w)
      → Keeps w from
          (n + sent_round s rest alert clock)
          (process_webhooks post s rest alert clock).0
  unfolding process_webhooks
  process_webhooks-Keeps w from n s [] alert clock k inside =
      lookup-Keeps w from n _ s s (omega arith) refl k
  process_webhooks-Keeps w from n s ((key, wh) ∷ rest) alert clock k inside =
      let next = process_webhook post s wh alert (clock wh) in
      let first = sent_to s wh alert (clock wh) in
      let later =
        process_webhooks-Keeps w from (n + first) next.0 rest alert clock
          (process_webhook-Keeps w from n s wh alert (clock wh) k (inside wh)) inside in
      let end = (process_webhooks post next.0 rest alert clock).0 in
      lookup-Keeps w from (n + first + sent_round next.0 rest alert clock) _ end end (omega arith)
        refl later
