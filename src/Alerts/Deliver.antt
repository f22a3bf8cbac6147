-- ===== src/Alerts/Deliver.antt =====
-- processAlert and the worker's round. A run through the webhooks also returns the names of those
-- that the alert was posted to, in their order, which the source does not keep.
use obsidian.Common.Map.{Map}
use obsidian.Common.{ℕ, suc, Bool, true, false, not, ◌&&◌, List, [], ◌∷◌, Bytes, if◌then◌else◌}
use obsidian.Alerts.{
  Alert, Service, WebhookConfig, check_rate_limit, increment_rate_limit_counters, severity_allowed,
  type_allowed,
}

-- The filters before the rate limit.
unfoldable pub wants : WebhookConfig → Alert → Bool
wants wh alert =
    wh.enabled
    && severity_allowed alert.severity wh.min_severity
    && type_allowed alert.kind wh.alert_types

abbrev pub count_limited : Service → Service
count_limited s = record s {
  metrics = record (s.metrics) { total_rate_limited = suc s.metrics.total_rate_limited };
}

abbrev pub count_failed : Service → Service
count_failed s = record s {
  metrics = record (s.metrics) { total_failed = suc s.metrics.total_failed };
}

abbrev pub count_sent : Service → Service
count_sent s = record s { metrics = record (s.metrics) { total_sent = suc s.metrics.total_sent } }

-- `sendToWebhook`: whether it has no error.
module _ (post : WebhookConfig → Alert → Bool) where
  -- One round of the loop at `now`, and whether the alert was posted.
  unfoldable pub process_webhook : Service → WebhookConfig → Alert → ℕ → Service × Bool
  process_webhook s wh alert now =
      if wants wh alert
      then (let (s', allowed) = check_rate_limit s wh.name wh.rate_limit now in
          if not allowed
          then (count_limited s', false)
          else if post wh alert
          then (count_sent (increment_rate_limit_counters s' wh.name), true)
          else (count_failed s', true))
      else (s, false)

  -- `clock` has the time of each round.
  unfoldable pub process_webhooks :
      Service → Map WebhookConfig → Alert → (WebhookConfig → ℕ) → Service × List Bytes
  process_webhooks s [] alert clock = (s, [])
  process_webhooks s ((name, wh) ∷ rest) alert clock =
      let (s', posted) = process_webhook s wh alert (clock wh) in
      let (s'', names) = process_webhooks s' rest alert clock in
      (s'', if posted then wh.name ∷ names else names)

  unfoldable pub process_alert : Service → Alert → (WebhookConfig → ℕ) → Service × List Bytes
  process_alert s alert clock = process_webhooks s s.webhooks alert clock

  -- A round of the worker: the oldest alert of the queue.
  unfoldable pub work : Service → (WebhookConfig → ℕ) → Service × List Bytes
  work s clock = elim s.queue [
    | [] ↦ (s, [])
    | alert ∷ rest ↦ process_alert (record s { queue = rest }) alert clock
  ]
