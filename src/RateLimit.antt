-- ===== src/RateLimit.antt =====
-- internal/app/ratelimit/ratelimit.go: the sharded sliding window limiter. A time is the number
-- of nanoseconds since the epoch, and `now` is the value that `time.Now()` returns in the call.
-- `hash` stands for FNV-1a of package hash/fnv, and `Backend` for the optional Redis limiter.
pub mod Endpoint
pub mod Visitors
pub mod Api
pub mod Shards
pub mod Valid
pub mod Refine
pub mod Decided
pub mod Window
pub mod Traffic
pub mod Bound
pub mod Blocked
pub mod Access
pub mod Counters
pub mod Http
mod Tests
use obsidian.Common.Int.{ℤ, pos, ◌+ℤ◌, ◌-ℤ◌}
use obsidian.Common.Map.{Map, lookup, insert, delete, sweep, is_some}
use obsidian.Common.{
  ℕ, suc, ◌+◌, ◌*◌, ◌/◌, Bool, true, false, ◌&&◌, ◌||◌, List, [], ◌∷◌, ◌++◌, map, Option, none,
  some, Bytes, codes, same, has_prefix, length, get_or, set, replicate, keep, leb, ltb, ◌%◌,
  if◌then◌else◌,
}

abbrev pub second : ℕ
second = 1_000_000_000

abbrev pub minute : ℕ
minute = 60 * second

abbrev pub num_shards : ℕ
num_shards = 256

abbrev pub local_host_ip : Bytes
local_host_ip = codes "127.0.0.1"

pub record EndpointConfig : Type 0 where
  pub requests_per_minute : ℕ
  pub burst_size : ℕ
  pub block_duration : ℕ

pub record Config : Type 0 where
  pub requests_per_minute : ℕ
  pub burst_size : ℕ
  pub block_duration : ℕ
  pub whitelist : List Bytes
  pub endpoint_limits : Map EndpointConfig
  pub cleanup_interval : ℕ

pub record Visitor : Type 0 where
  pub timestamps : List ℕ
  pub blocked : Bool
  -- a Unix time, in seconds
  pub block_until : ℕ

abbrev pub Shard : Type 0
Shard = Map Visitor

-- The methods of `*RedisRateLimiter` that the limiter calls, over the backend's own state.
pub record Backend (S : Type 0) : Type 0 where
  pub is_blacklisted : S → Bytes → Bool
  pub allow_endpoint : S → Bytes → Bytes → ℕ → S × Bool
  pub blacklist : S → Bytes → S
  pub whitelist : S → Bytes → S
  pub remove_from_blacklist : S → Bytes → S
  pub remove_from_whitelist : S → Bytes → S
  pub reset : S → Bytes → S
  pub unblock : S → Bytes → S

pub record RateLimiter (S : Type 0) : Type 0 where
  pub shards : List Shard
  pub config : Config
  pub whitelist : Map Bool
  pub blacklist : Map Bool
  pub redis_backend : Option S
  pub total_allowed : ℕ
  pub total_blocked : ℕ
  pub total_visitors : ℤ

unfoldable pub store_all : List Bytes → Map Bool → Map Bool
store_all [] m = m
store_all (ip ∷ ips) m = store_all ips (insert ip true m)

-- `NewRateLimiter`, without the goroutine that calls `cleanup`.
unfoldable pub new_rate_limiter : (S : Type 0) → Config → RateLimiter S
unfolding store_all
new_rate_limiter S cfg = record {
  shards = replicate num_shards [];
  config = cfg;
  whitelist = store_all cfg.whitelist [];
  blacklist = [];
  redis_backend = none;
  total_allowed = 0;
  total_blocked = 0;
  total_visitors = pos 0;
}

unfoldable pub normalize_ip : Bytes → Bytes
normalize_ip ip =
    if same ip (codes "[::1]") || same ip (codes "::1") || same ip (codes "localhost")
    then local_host_ip
    else ip

-- The loops that drop the timestamps outside the window: `ts.After(now.Add(-time.Minute))`.
abbrev pub is_recent : ℕ → ℕ → Bool
is_recent now ts = ltb now (ts + minute)

unfoldable pub recent : ℕ → List ℕ → List ℕ
recent now = keep (is_recent now)
