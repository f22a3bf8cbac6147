-- ===== src/Alerts.antt =====
-- internal/app/alerts/alerts.go: which webhooks an alert is sent to, and the limits of each. The
-- delivery over HTTP is an argument, and the texts of an alert are left out. A count of a limit that
-- is configured below 0 acts as 0. The channel of the queue is a list with its capacity.
pub mod Deliver
pub mod Bounded
pub mod Run
pub mod Posted
pub mod Senders
pub mod Sent
pub mod Quota
mod Tests
use obsidian.Common.Map.{Map, lookup, insert, delete}
use obsidian.Common.{
  ℕ, suc, ◌+◌, ◌-◌, ◌*◌, Bool, true, false, not, ◌&&◌, ◌||◌, leb, ltb, List, [], ◌∷◌, ◌++◌, Option,
  none, some, Bytes, codes, same, any, length, if◌then◌else◌,
}

abbrev pub minute : ℕ
minute = 60 * 1_000_000_000

abbrev pub hour : ℕ
hour = 3600 * 1_000_000_000

pub record Alert : Type 0 where
  pub kind : Bytes
  pub severity : Bytes

pub record RateLimitConfig : Type 0 where
  pub max_per_minute : ℕ
  pub max_per_hour : ℕ

pub record WebhookConfig : Type 0 where
  pub name : Bytes
  pub kind : Bytes
  pub enabled : Bool
  pub min_severity : Bytes
  pub alert_types : List Bytes
  pub headers : Map Bytes
  pub rate_limit : Option RateLimitConfig

-- `webhookState`; `none` is the zero time.
pub record WebhookState : Type 0 where
  pub minute_count : ℕ
  pub hour_count : ℕ
  pub last_minute : Option ℕ
  pub last_hour : Option ℕ

-- The counts of `Metrics` without those by type, severity and webhook.
pub record Metrics : Type 0 where
  pub total_sent : ℕ
  pub total_failed : ℕ
  pub total_rate_limited : ℕ

pub record Service : Type 0 where
  pub default_rate_limit : RateLimitConfig
  pub buffer_size : ℕ
  pub webhooks : Map WebhookConfig
  pub states : Map WebhookState
  pub metrics : Metrics
  pub queue : List Alert

abbrev pub new_state : WebhookState
new_state = record { minute_count = 0; hour_count = 0; last_minute = none; last_hour = none }

-- The level of a known severity.
unfoldable pub level : Bytes → Option ℕ
level severity =
    if same severity (codes "info")
    then some 0
    else if same severity (codes "low")
    then some 1
    else if same severity (codes "medium")
    then some 2
    else if same severity (codes "high")
    then some 3
    else if same severity (codes "critical")
    then some 4
    else none

unfoldable pub severity_allowed : Bytes → Bytes → Bool
severity_allowed alert_severity min_severity = elim (level alert_severity) [
  | none ↦ true
  | some a ↦ elim (level min_severity) [ none ↦ true | some b ↦ leb b a ]
]

unfoldable pub type_allowed : Bytes → List Bytes → Bool
type_allowed alert_type [] = true
type_allowed alert_type (t ∷ ts) = any (λ x. same x alert_type) (t ∷ ts)

-- `now.Sub(last) >= window`; a time before the last one has not passed it.
unfoldable pub has_passed : Option ℕ → ℕ → ℕ → Bool
has_passed none window now = true
has_passed (some last) window now = leb (last + window) now

-- The counters with those reset whose window is over.
unfoldable pub reset_windows : WebhookState → ℕ → WebhookState
reset_windows st now =
    let over_minute = has_passed st.last_minute minute now in
    let over_hour = has_passed st.last_hour hour now in
    record {
      minute_count = if over_minute then 0 else st.minute_count;
      last_minute = if over_minute then some now else st.last_minute;
      hour_count = if over_hour then 0 else st.hour_count;
      last_hour = if over_hour then some now else st.last_hour;
    }

-- The limit of a webhook: its own, or that of the configuration.
abbrev pub limit_of : Service → Option RateLimitConfig → RateLimitConfig
limit_of s none = s.default_rate_limit
limit_of s (some limit) = limit

abbrev pub is_below : WebhookState → RateLimitConfig → Bool
is_below st limit = ltb st.minute_count limit.max_per_minute && ltb st.hour_count limit.max_per_hour

unfoldable pub check_rate_limit : Service → Bytes → Option RateLimitConfig → ℕ → Service × Bool
check_rate_limit s name cfg now = elim (lookup name s.states) [
  | none ↦ (s, true)
  | some st ↦
      let fresh = reset_windows st now in
      (record s { states = insert name fresh s.states }, is_below fresh (limit_of s cfg))
]

abbrev pub one_more : WebhookState → WebhookState
one_more st = record st { minute_count = suc st.minute_count; hour_count = suc st.hour_count }

unfoldable pub increment_rate_limit_counters : Service → Bytes → Service
increment_rate_limit_counters s name = elim (lookup name s.states) [
  | none ↦ s
  | some st ↦ record s { states = insert name (one_more st) s.states }
]

unfoldable pub add_webhook : Service → WebhookConfig → Service
add_webhook s wh = record s {
  webhooks = insert wh.name wh s.webhooks;
  states = insert wh.name new_state s.states;
}

unfoldable pub remove_webhook : Service → Bytes → Service
remove_webhook s name = record s {
  webhooks = delete name s.webhooks;
  states = delete name s.states;
}

-- `Send`, without the defaults of the texts: whether the alert was queued.
unfoldable pub send : Service → Alert → Service × Bool
send s alert =
    if ltb (length s.queue) s.buffer_size
    then (record s { queue = s.queue ++ alert ∷ [] }, true)
    else (s, false)

-- `u[len(u)-1:]`
unfoldable pub last_of : Bytes → Bytes
last_of [] = []
last_of (c ∷ []) = c ∷ []
last_of (c ∷ d ∷ s) = last_of (d ∷ s)

unfoldable pub mask_username : Bytes → Bytes
mask_username [] = codes "***"
mask_username (c ∷ []) = codes "***"
mask_username (c ∷ d ∷ []) = codes "***"
mask_username (c ∷ d ∷ e ∷ s) = c ∷ (codes "***" ++ last_of (e ∷ s))

-- The key of the first PagerDuty webhook that has one, in the map's order.
unfoldable pub get_routing_key : Map WebhookConfig → Bytes
get_routing_key [] = []
get_routing_key ((name, wh) ∷ rest) =
    let later = get_routing_key rest in
    if same wh.kind (codes "pagerduty")
    then elim (lookup (codes "routing_key") wh.headers) [ none ↦ later | some key ↦ key ]
    else later
