-- ===== src/RateLimit/Visitors.antt =====
-- The visitors of internal/app/ratelimit/ratelimit.go: their shards, the rate check and `cleanup`.
use obsidian.Common.Int.{pos, ◌+ℤ◌, ◌-ℤ◌}
use obsidian.Common.Map.{lookup, insert, sweep, is_some}
use obsidian.Common.{
  ℕ, ◌+◌, ◌*◌, ◌/◌, Bool, true, false, ◌&&◌, not, ◌==◌, List, [], ◌∷◌, ◌++◌, Option, none, some,
  Bytes, length, get_or, set, leb, ltb, ◌%◌, if◌then◌else◌,
}
use obsidian.RateLimit.Endpoint.{get_endpoint_config}
use obsidian.RateLimit.{second, num_shards, EndpointConfig, Visitor, Shard, RateLimiter, recent}

module _ {S : Type 0} where
  abbrev pub allowed : RateLimiter S → RateLimiter S × Bool
  allowed rl = (record rl { total_allowed = rl.total_allowed + 1 }, true)

  abbrev pub refused : RateLimiter S → RateLimiter S × Bool
  refused rl = (record rl { total_blocked = rl.total_blocked + 1 }, false)

  abbrev pub answer : Bool → RateLimiter S → RateLimiter S × Bool
  answer ok rl = if ok then allowed rl else refused rl

module _ (hash : Bytes → ℕ) {S : Type 0} where
  unfoldable pub get_shard : RateLimiter S → Bytes → Shard
  get_shard rl ip = get_or rl.shards (hash ip % num_shards) []

  unfoldable pub put_shard : RateLimiter S → Bytes → Shard → RateLimiter S
  put_shard rl ip sh = record rl { shards = set rl.shards (hash ip % num_shards) sh }

  -- `sh.visitors[ip]` in the shard of `ip`.
  unfoldable pub find : RateLimiter S → Bytes → Option Visitor
  find rl ip = lookup ip (get_shard rl ip)

  unfoldable pub store : RateLimiter S → Bytes → Visitor → RateLimiter S
  store rl ip v = put_shard rl ip (insert ip v (get_shard rl ip))

  -- The end of `AllowEndpoint`: the rate is checked against the visitor's window.
  unfoldable pub check_rate :
      RateLimiter S → EndpointConfig → Bytes → Visitor → ℕ → RateLimiter S × Bool
  check_rate rl cfg ip v now =
      let valid = recent now v.timestamps in
      if leb cfg.requests_per_minute (length valid)
      then refused (
          store rl ip (record {
            timestamps = valid;
            blocked = true;
            block_until = (now + cfg.block_duration) / second;
          }))
      else allowed (store rl ip (record v { timestamps = valid ++ now ∷ [] }))

  -- `AllowEndpoint` from the visitor's lookup on, for a known visitor.
  unfoldable pub check_visitor :
      RateLimiter S → EndpointConfig → Bytes → Visitor → ℕ → RateLimiter S × Bool
  check_visitor rl cfg ip v now =
      if v.blocked
      then (if ltb (v.block_until * second) now
          then check_rate rl cfg ip (record v { blocked = false }) now
          else refused rl)
      else check_rate rl cfg ip v now

  -- The part of `AllowEndpoint` that runs without a Redis backend.
  unfoldable pub allow_local : RateLimiter S → Bytes → Bytes → ℕ → RateLimiter S × Bool
  allow_local rl ip endpoint now = elim (find rl ip) [
    | some v ↦ check_visitor rl (get_endpoint_config rl.config endpoint) ip v now
    | none ↦
        let known =
          store rl ip (record { timestamps = now ∷ []; blocked = false; block_until = 0 }) in
        allowed (record known { total_visitors = rl.total_visitors +ℤ pos 1 })
  ]

-- What `cleanup` does to a visitor; `none` means that the visitor is deleted.
unfoldable pub tidy : ℕ → Visitor → Option Visitor
tidy now v =
    let blocked = v.blocked && leb now (v.block_until * second) in
    let valid = recent now v.timestamps in
    if (length valid == 0) && not blocked
    then none
    else some (record v { timestamps = valid; blocked = blocked })

-- The number of visitors of a shard that `cleanup` deletes.
unfoldable pub removed : ℕ → Shard → ℕ
removed now [] = 0
removed now ((ip, v) ∷ m) = (if is_some (tidy now v) then 0 else 1) + removed now m

unfoldable pub sweep_shards : ℕ → List Shard → List Shard
sweep_shards now [] = []
sweep_shards now (sh ∷ shs) = sweep (tidy now) sh ∷ sweep_shards now shs

unfoldable pub removed_all : ℕ → List Shard → ℕ
removed_all now [] = 0
removed_all now (sh ∷ shs) = removed now sh + removed_all now shs

unfoldable pub cleanup : {S : Type 0} → RateLimiter S → ℕ → RateLimiter S
cleanup rl now = record rl {
  shards = sweep_shards now rl.shards;
  total_visitors = rl.total_visitors -ℤ pos (removed_all now rl.shards);
}
