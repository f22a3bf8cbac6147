-- ===== src/Alerts/Tests.antt =====
-- The alert service on small inputs.
use obsidian.Common.Map.{insert, lookup}
use obsidian.Common.{List, ◌+◌, ◌≤◌, ◌≡◌, refl, true, [], ◌∷◌, some, arith, codes, same}
use obsidian.Alerts.{
  send, increment_rate_limit_counters, Alert, RateLimitConfig, Service, WebhookConfig, WebhookState,
  check_rate_limit, has_passed, level, new_state, one_more, reset_windows, severity_allowed,
  type_allowed,
}
use obsidian.Alerts.Deliver.{work, process_alert, process_webhook, process_webhooks, wants}
use obsidian.Alerts.Run.{IsValid, immediate, queue, step, worker, Op}
use obsidian.Alerts.Sent.{sent_run}
use obsidian.Alerts.Senders.{
  Reaches, Reaches-minute_count, Senders, allowed, here, sent, start, then,
}

abbrev chat : WebhookConfig
chat = record {
  name = codes "chat";
  kind = codes "slack";
  enabled = true;
  min_severity = codes "high";
  alert_types = [];
  headers = [];
  rate_limit = some (record { max_per_minute = 1; max_per_hour = 5 });
}

abbrev attack : Alert
attack = record { kind = codes "waf"; severity = codes "critical" }

abbrev empty : Service
empty = record {
  default_rate_limit = record { max_per_minute = 10; max_per_hour = 100 };
  buffer_size = 2;
  webhooks = [];
  states = [];
  metrics = record { total_sent = 0; total_failed = 0; total_rate_limited = 0 };
  queue = [];
}

empty-IsValid : IsValid empty
unfolding lookup
empty-IsValid = (tt, tt, (λ name wh st e f. cc))

abbrev with_chat : Service
with_chat = record empty {
  webhooks = (codes "chat", chat) ∷ [];
  states = (codes "chat", new_state) ∷ [];
}

posted : (process_alert (λ wh a. true) with_chat attack (λ wh. 5)).1 ≡ codes "chat" ∷ []
unfolding process_alert process_webhooks process_webhook wants severity_allowed level type_allowed
    same check_rate_limit lookup reset_windows has_passed
posted = refl

-- The counters of the webhook stand in the minute from 5, in which one delivery is counted.
abbrev counting : Service
counting = record empty {
  webhooks = (codes "chat", chat) ∷ [];
  states =
      (
        codes "chat",
        record { minute_count = 0; hour_count = 1; last_minute = some 5; last_hour = some 5 },
      )
      ∷ [];
}

abbrev alerts : List Op
alerts = queue attack ∷ worker (λ wh. 6) ∷ immediate attack (λ wh. 7) ∷ []

-- One of the two alerts is delivered.
one_sent : sent_run (λ wh a. true) (codes "chat") counting alerts ≡ 1
unfolding step send work process_alert process_webhooks process_webhook wants severity_allowed level
    type_allowed same check_rate_limit increment_rate_limit_counters lookup insert reset_windows
    has_passed
one_sent = refl

abbrev one_a_minute : RateLimitConfig
one_a_minute = record { max_per_minute = 1; max_per_hour = 5 }

-- The counters after the first check, and after two deliveries.
abbrev checked : WebhookState
checked = record { minute_count = 0; hour_count = 0; last_minute = some 5; last_hour = some 5 }

abbrev overrun : Senders
overrun = record { state = one_more (one_more checked); sending = 0 }

-- Two senders check before either counts: two deliveries in a minute that admits one.
overrun_reached : Reaches one_a_minute 2 start overrun
unfolding reset_windows has_passed
overrun_reached =
    then _ _ _
      (then _ _ _
        (then _ _ _ (then _ _ _ (here start) (allowed new_state 0 5 (omega arith) refl))
          (allowed checked 1 6 (omega arith) refl))
        (sent checked 1))
      (sent (one_more checked) 0)

Reaches-minute_count_example :
    (overrun.state.minute_count + 1 ≤ one_a_minute.max_per_minute + 2)
    × (overrun.state.hour_count + 1 ≤ one_a_minute.max_per_hour + 2)
Reaches-minute_count_example =
    Reaches-minute_count one_a_minute 2 overrun (omega arith) overrun_reached
