-- ===== src/Alerts/Senders.antt =====
-- Several senders at one webhook: the worker and the callers of SendImmediate each run processAlert,
-- which checks the limit and counts the delivery in two steps.
use obsidian.Common.{ℕ, suc, ◌+◌, ◌≤◌, ◌<◌, ◌≡◌, true, false, arith}
use obsidian.Alerts.{RateLimitConfig, WebhookState, is_below, new_state, one_more, reset_windows}

-- The counters, and the senders between their check and the end of their delivery.
pub record Senders : Type 0 where
  pub state : WebhookState
  pub sending : ℕ

-- A step of one of `n` senders.
pub data Step (limit : RateLimitConfig) (n : ℕ) : Senders → Senders → Type 0 where
  allowed :
      (st : WebhookState) (k now : ℕ)
      → k < n
      → is_below (reset_windows st now) limit ≡ true
      → Step limit n
          (record { state = st; sending = k })
          (record { state = reset_windows st now; sending = suc k })
  refused :
      (st : WebhookState) (k now : ℕ)
      → k < n
      → is_below (reset_windows st now) limit ≡ false
      → Step limit n
          (record { state = st; sending = k })
          (record { state = reset_windows st now; sending = k })
  sent :
      (st : WebhookState) (k : ℕ)
      → Step limit n
          (record { state = st; sending = suc k })
          (record { state = one_more st; sending = k })
  failed :
      (st : WebhookState) (k : ℕ)
      → Step limit n (record { state = st; sending = suc k }) (record { state = st; sending = k })

pub data Reaches (limit : RateLimitConfig) (n : ℕ) : Senders → Senders → Type 0 where
  here : (s : Senders) → Reaches limit n s s
  then : (s t u : Senders) → Reaches limit n s t → Step limit n t u → Reaches limit n s u

abbrev pub start : Senders
start = record { state = new_state; sending = 0 }

-- Room for the senders that are between their steps.
abbrev Fits : RateLimitConfig → ℕ → Senders → Type 0
Fits limit n s =
    (s.sending ≤ n)
    × (s.state.minute_count + (s.sending + 1) ≤ limit.max_per_minute + n)
    × (s.state.hour_count + (s.sending + 1) ≤ limit.max_per_hour + n)

pub reset_windows_le :
    (st : WebhookState) (now : ℕ)
    → ((reset_windows st now).minute_count ≤ st.minute_count)
      × ((reset_windows st now).hour_count ≤ st.hour_count)
unfolding reset_windows
reset_windows_le st now = ground arith

Step-Fits :
    (limit : RateLimitConfig) (n : ℕ) (s t : Senders)
    → Step limit n s t
    → Fits limit n s
    → Fits limit n t
Step-Fits limit n s t (allowed st k now free below) (a, b, c) =
    ground (arith, below, reset_windows_le st now)
Step-Fits limit n s t (refused st k now free above) (a, b, c) =
    ground (arith, reset_windows_le st now)
Step-Fits limit n s t (sent st k) (a, b, c) = (omega arith, omega arith, omega arith)
Step-Fits limit n s t (failed st k) (a, b, c) = (omega arith, omega arith, omega arith)

Reaches-Fits :
    (limit : RateLimitConfig) (n : ℕ) (s t : Senders)
    → Reaches limit n s t
    → Fits limit n s
    → Fits limit n t
Reaches-Fits limit n _ _ (here s) h = h
Reaches-Fits limit n _ _ (then s t u r step) h =
    Step-Fits limit n t u step (Reaches-Fits limit n s t r h)

-- With `n` senders at a time, the count of a window is below the limit and `n` together, in every
-- order of their steps: at most `n` - 1 deliveries are too many, and none if there is one sender.
pub Reaches-minute_count :
    (limit : RateLimitConfig) (n : ℕ) (s : Senders)
    → 1 ≤ n
    → Reaches limit n start s
    → (s.state.minute_count + 1 ≤ limit.max_per_minute + n)
      × (s.state.hour_count + 1 ≤ limit.max_per_hour + n)
Reaches-minute_count limit n s h r =
    let (a, b, c) = Reaches-Fits limit n start s r (omega arith, omega arith, omega arith) in
    (omega arith, omega arith)
