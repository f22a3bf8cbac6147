-- ===== src/RateLimit/Api.antt =====
-- The exported operations of internal/app/ratelimit/ratelimit.go, over a Redis backend if one is set.
use obsidian.Common.Int.{pos, ◌-ℤ◌}
use obsidian.Common.Map.{insert, delete, lookup, is_some}
use obsidian.Common.{
  ℕ, Bool, true, false, ◌||◌, List, [], ◌∷◌, map, Option, none, some, Bytes, same, if◌then◌else◌,
}
use obsidian.RateLimit.{Shard, Backend, RateLimiter, normalize_ip}
use obsidian.RateLimit.Visitors.{
  allowed, refused, answer, get_shard, put_shard, find, store, allow_local, cleanup,
}

-- `make(map[string]*visitor)` in place of a shard's map.
abbrev pub empty_shard : Shard → Shard
empty_shard sh = []

module _ (hash : Bytes → ℕ) {S : Type 0} (b : Backend S) where
  -- `AllowEndpoint` behind the white- and the blacklist of the limiter itself.
  unfoldable pub allow_backend : Option S → RateLimiter S → Bytes → Bytes → ℕ → RateLimiter S × Bool
  allow_backend none rl ip endpoint now = allow_local hash rl ip endpoint now
  allow_backend (some s) rl ip endpoint now =
      if b.is_blacklisted s (normalize_ip ip) || b.is_blacklisted s ip
      then refused rl
      else let (s', ok) = b.allow_endpoint s ip endpoint now in
        answer ok (record rl { redis_backend = some s' })

  unfoldable pub allow_endpoint : RateLimiter S → Bytes → Bytes → ℕ → RateLimiter S × Bool
  allow_endpoint rl ip endpoint now =
      if is_some (lookup ip rl.whitelist)
      then allowed rl
      else if is_some (lookup (normalize_ip ip) rl.whitelist)
      then allowed rl
      else if is_some (lookup ip rl.blacklist)
      then refused rl
      else allow_backend rl.redis_backend rl ip endpoint now

  unfoldable pub allow : RateLimiter S → Bytes → ℕ → RateLimiter S × Bool
  allow rl ip now = allow_endpoint rl ip [] now

  -- `if rl.redisBackend != nil { rl.redisBackend.f(ip) }`, where an error is dropped.
  abbrev pub forward : (S → Bytes → S) → Option S → Bytes → Option S
  forward f none ip = none
  forward f (some s) ip = some (f s ip)

  unfoldable pub blacklist : RateLimiter S → Bytes → RateLimiter S
  blacklist rl ip = record rl {
    redis_backend = forward b.blacklist rl.redis_backend ip;
    blacklist = insert ip true rl.blacklist;
    whitelist = delete ip rl.whitelist;
  }

  unfoldable pub whitelist : RateLimiter S → Bytes → RateLimiter S
  whitelist rl ip = record rl {
    redis_backend = forward b.whitelist rl.redis_backend ip;
    whitelist = insert ip true rl.whitelist;
    blacklist = delete ip rl.blacklist;
  }

  unfoldable pub remove_from_blacklist : RateLimiter S → Bytes → RateLimiter S
  remove_from_blacklist rl ip = record rl {
    redis_backend = forward b.remove_from_blacklist rl.redis_backend ip;
    blacklist = delete ip rl.blacklist;
  }

  unfoldable pub remove_from_whitelist : RateLimiter S → Bytes → RateLimiter S
  remove_from_whitelist rl ip = record rl {
    redis_backend = forward b.remove_from_whitelist rl.redis_backend ip;
    whitelist = delete ip rl.whitelist;
  }

  unfoldable pub reset_all : RateLimiter S → RateLimiter S
  reset_all rl = record rl {
    redis_backend = forward b.reset rl.redis_backend [];
    shards = map empty_shard rl.shards;
    total_visitors = pos 0;
  }

  unfoldable pub reset_one : RateLimiter S → Bytes → RateLimiter S
  reset_one rl ip =
      let kept = put_shard hash rl ip (delete ip (get_shard hash rl ip)) in
      let local : RateLimiter S =
        if is_some (find hash rl ip)
        then record kept { total_visitors = rl.total_visitors -ℤ pos 1 }
        else rl in
      record local { redis_backend = forward b.reset rl.redis_backend ip }

  unfoldable pub reset : RateLimiter S → Bytes → RateLimiter S
  reset rl ip = if same ip [] then reset_all rl else reset_one rl ip

  unfoldable pub unblock : RateLimiter S → Bytes → RateLimiter S
  unblock rl ip =
      let local : RateLimiter S = elim (find hash rl ip) [
        | some v ↦ store hash rl ip (record v { blocked = false; timestamps = [] })
        | none ↦ rl
      ] in
      record local { redis_backend = forward b.unblock rl.redis_backend ip }

  -- `SetRedisBackend`.
  unfoldable pub set_redis_backend : RateLimiter S → Option S → RateLimiter S
  set_redis_backend rl s = record rl { redis_backend = s }

-- A call of the limiter, with the time at which it is made where it reads the clock.
pub data Op (S : Type 0) : Type 0 where
  request : Bytes → Bytes → ℕ → Op S
  tick : ℕ → Op S
  ban : Bytes → Op S
  trust : Bytes → Op S
  unban : Bytes → Op S
  distrust : Bytes → Op S
  clear : Bytes → Op S
  release : Bytes → Op S
  connect : Option S → Op S

module _ (hash : Bytes → ℕ) {S : Type 0} (b : Backend S) where
  unfoldable pub step : Op S → RateLimiter S → RateLimiter S
  step (request ip endpoint now) rl = (allow_endpoint hash b rl ip endpoint now).0
  step (tick now) rl = cleanup rl now
  step (ban ip) rl = blacklist hash b rl ip
  step (trust ip) rl = whitelist hash b rl ip
  step (unban ip) rl = remove_from_blacklist hash b rl ip
  step (distrust ip) rl = remove_from_whitelist hash b rl ip
  step (clear ip) rl = reset hash b rl ip
  step (release ip) rl = unblock hash b rl ip
  step (connect s) rl = set_redis_backend hash b rl s

  -- The limiter after a sequence of calls; each holds the lock that it needs.
  unfoldable pub run : List (Op S) → RateLimiter S → RateLimiter S
  run [] rl = rl
  run (op ∷ ops) rl = run ops (step op rl)
