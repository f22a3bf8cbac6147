-- ===== src/Alerts/Quota.antt =====
-- Runs of the alert service with one sender at a time: the deliveries of a window are at most its limit.
use obsidian.Common.Map.{Map, lookup}
use obsidian.Common.{ℕ, ◌<◌, ◌≡◌, ◌≢◌, Bool, Bytes}
use obsidian.Alerts.{Alert, Service, WebhookConfig}
use obsidian.Alerts.Run.{Op, add, immediate, queue, remove, worker}

-- The call neither adds nor removes the webhook, and its rounds for it come before `until`.
abbrev pub Inside : Bytes → ℕ → Op → Type 0
Inside name until (add wh) = wh.name ≢ name
Inside name until (remove other) = other ≢ name
Inside name until (queue alert) = Unit
Inside name until (worker clock) = (wh : WebhookConfig) → wh.name ≡ name → clock wh < until
Inside name until (immediate alert clock) = (wh : WebhookConfig) → wh.name ≡ name → clock wh < until

module _ (post : WebhookConfig → Alert → Bool) (name : Bytes) where
  -- The webhook and the default limit are those that they were.
  abbrev Stays : Service → Service → Type 0
  Stays s t =
      (lookup name t.webhooks ≡ lookup name s.webhooks)
      × (t.default_rate_limit ≡ s.default_rate_limit)
