-- ===== src/Alerts/Run.antt =====
-- Runs of the alert service with one sender at a time: the counters stay within the limits.
use mathlib.Core.Path.{subst}
use obsidian.Common.Map.{
  IsMap, Map, delete, delete-IsMap, insert, insert-IsMap, lookup, lookup-delete, lookup-insert,
}
use obsidian.Common.{
  ℕ, ◌≡◌, refl, sym, inl, inr, Bool, List, [], ◌∷◌, some, arith, All, All-weaken, Bytes, same,
  same_iff, same_refl, Bool-cases, ltb, length,
}
use obsidian.Alerts.{
  Alert, Service, WebhookConfig, add_webhook, limit_of, new_state, remove_webhook, send,
}
use obsidian.Alerts.Bounded.{Fits, Within, process_webhooks-Fits}
use obsidian.Alerts.Deliver.{process_alert, work}

pub data Op : Type 0 where
  add : WebhookConfig → Op
  remove : Bytes → Op
  queue : Alert → Op
  worker : (WebhookConfig → ℕ) → Op
  immediate : Alert → (WebhookConfig → ℕ) → Op

abbrev Named : Map WebhookConfig → Type 0
Named m = All (λ p. p.1.name ≡ p.0) m

-- The webhooks are kept under their names, and none is above its limits.
abbrev pub IsValid : Service → Type 0
IsValid s = IsMap s.webhooks × Named s.webhooks × Fits s

insert-Named : (wh : WebhookConfig) (m : Map WebhookConfig) → Named m → Named (insert wh.name wh m)
unfolding insert
insert-Named wh [] h = (refl, tt)
insert-Named wh ((j, v) ∷ m) h = elim (Bool-cases (same j wh.name)) [
  | inl e ↦ rw (e, insert) (sym ((same_iff j wh.name).0 e), h.1)
  | inr e ↦ rw (e, insert) (h.0, insert-Named wh m h.1)
]

delete-Named : (k : Bytes) (m : Map WebhookConfig) → Named m → Named (delete k m)
unfolding delete
delete-Named k [] h = tt
delete-Named k ((j, v) ∷ m) h = elim (Bool-cases (same j k)) [
  | inl e ↦ rw (e, delete) (delete-Named k m h.1)
  | inr e ↦ rw (e, delete) (h.0, delete-Named k m h.1)
]

-- Each webhook is found under its name.
All-lookup : (m : Map WebhookConfig) → IsMap m → Named m → All (λ p. lookup p.1.name m ≡ some p.1) m
unfolding lookup
All-lookup [] h n = tt
All-lookup ((j, v) ∷ m) h n =
    let later = All-lookup m h.1 n.1 in
    (
      ground (arith, n.0, same_iff j v.name, same_refl j),
      All-weaken (λ p. lookup p.1.name m ≡ some p.1)
          (λ p e. ground (arith, e, h.0, same_iff j p.1.name)) m later,
    )

add_webhook-Fits : (s : Service) (wh : WebhookConfig) → Fits s → Fits (add_webhook s wh)
unfolding add_webhook
add_webhook-Fits s wh h k w x e f = elim (Bool-cases (same wh.name k)) [
  | inl g ↦
      let is_new : new_state ≡ x =
        ground (arith, f, g, lookup-insert wh.name k new_state s.states) in
      subst (λ y. Within y (limit_of s w.rate_limit)) is_new (omega arith, omega arith)
  | inr g ↦
      h k w x (ground (arith, e, g, lookup-insert wh.name k wh s.webhooks))
        (ground (arith, f, g, lookup-insert wh.name k new_state s.states))
]

remove_webhook-Fits : (s : Service) (name : Bytes) → Fits s → Fits (remove_webhook s name)
unfolding remove_webhook
remove_webhook-Fits s name h k w x e f = elim (Bool-cases (same name k)) [
  | inl g ↦ absurd (ground (arith, e, g, lookup-delete name k s.webhooks))
  | inr g ↦
      h k w x (ground (arith, e, g, lookup-delete name k s.webhooks))
        (ground (arith, f, g, lookup-delete name k s.states))
]

module _ (post : WebhookConfig → Alert → Bool) where
  unfoldable pub step : Service → Op → Service
  step s (add wh) = add_webhook s wh
  step s (remove name) = remove_webhook s name
  step s (queue alert) = (send s alert).0
  step s (worker clock) = (work post s clock).0
  step s (immediate alert clock) = (process_alert post s alert clock).0

  unfoldable pub run_service : Service → List Op → Service
  run_service s [] = s
  run_service s (op ∷ ops) = run_service (step s op) ops

  process_alert-IsValid :
      (s : Service) (alert : Alert) (clock : WebhookConfig → ℕ)
      → IsValid s
      → IsValid (process_alert post s alert clock).0
  unfolding process_alert
  process_alert-IsValid s alert clock (m, n, h) =
      let (fits, (hooks, limit)) =
        process_webhooks-Fits post s s.webhooks alert clock (All-lookup s.webhooks m n) h in
      (subst IsMap (sym hooks) m, subst Named (sym hooks) n, fits)

  work-IsValid :
      (s : Service) (waiting : List Alert) (clock : WebhookConfig → ℕ)
      → s.queue ≡ waiting
      → IsValid s
      → IsValid (work post s clock).0
  unfolding work
  work-IsValid s [] clock e v = rw (e, work) v
  work-IsValid s (alert ∷ rest) clock e v =
      rw (e, work) (process_alert-IsValid (record s { queue = rest }) alert clock v)

  send-IsValid : (s : Service) (alert : Alert) → IsValid s → IsValid (send s alert).0
  unfolding send
  send-IsValid s alert v = elim (Bool-cases (ltb (length s.queue) s.buffer_size)) [
    | inl e ↦ rw (e, send) v
    | inr e ↦ rw (e, send) v
  ]

  step-IsValid : (s : Service) (op : Op) → IsValid s → IsValid (step s op)
  unfolding step add_webhook remove_webhook
  step-IsValid s (add wh) (m, n, h) =
      (insert-IsMap wh.name wh s.webhooks m, insert-Named wh s.webhooks n, add_webhook-Fits s wh h)
  step-IsValid s (remove name) (m, n, h) =
      (delete-IsMap name s.webhooks m, delete-Named name s.webhooks n, remove_webhook-Fits s name h)
  step-IsValid s (queue alert) v = send-IsValid s alert v
  step-IsValid s (worker clock) v = work-IsValid s s.queue clock refl v
  step-IsValid s (immediate alert clock) v = process_alert-IsValid s alert clock v

  -- From a valid service, any calls with one sender at a time lead to a valid one: the counters that
  -- are stored of a webhook are at most its limits, or the default ones.
  pub run_service-IsValid : (s : Service) (ops : List Op) → IsValid s → IsValid (run_service s ops)
  unfolding run_service
  run_service-IsValid s [] v = v
  run_service-IsValid s (op ∷ ops) v = run_service-IsValid (step s op) ops (step-IsValid s op v)
