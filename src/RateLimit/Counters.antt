-- ===== src/RateLimit/Counters.antt =====
-- `totalAllowed` and `totalBlocked` of internal/app/ratelimit/ratelimit.go.
use obsidian.Common.{
  ℕ, ◌+◌, ◌≡◌, inl, inr, Bool, true, false, List, [], ◌∷◌, Option, none, some, arith, Bytes,
  if◌then◌else◌, Option-cases,
}
use obsidian.RateLimit.{Visitor, EndpointConfig, Config, Backend, RateLimiter, new_rate_limiter}
use obsidian.RateLimit.Endpoint.{get_endpoint_config}
use obsidian.RateLimit.Visitors.{
  find, store, put_shard, check_rate, check_visitor, allow_local, cleanup, answer,
}
use obsidian.RateLimit.Api.{
  allow_backend, allow_endpoint, blacklist, whitelist, remove_from_blacklist, remove_from_whitelist,
  reset, reset_all, reset_one, unblock, set_redis_backend, Op, request, tick, ban, trust, unban,
  distrust, clear, release, connect, step, run,
}

-- The decision is counted once, under its answer.
abbrev pub Counted : {S : Type 0} → RateLimiter S → RateLimiter S × Bool → Type 0
Counted rl out =
    (out.0.total_allowed ≡ rl.total_allowed + (if out.1 then 1 else 0))
    × (out.0.total_blocked ≡ rl.total_blocked + (if out.1 then 0 else 1))

module _ {S : Type 0} where
  answer-Counted : (ok : Bool) (rl : RateLimiter S) → Counted rl (answer ok rl)
  answer-Counted ok rl = ground arith

module _ (hash : Bytes → ℕ) {S : Type 0} where
  check_rate-Counted :
      (rl : RateLimiter S) (cfg : EndpointConfig) (ip : Bytes) (v : Visitor) (now : ℕ)
      → Counted rl (check_rate hash rl cfg ip v now)
  unfolding check_rate store put_shard
  check_rate-Counted rl cfg ip v now = ground arith

  check_visitor-Counted :
      (rl : RateLimiter S) (cfg : EndpointConfig) (ip : Bytes) (v : Visitor) (now : ℕ)
      → Counted rl (check_visitor hash rl cfg ip v now)
  unfolding check_visitor
  check_visitor-Counted rl cfg ip v now = ground (
    arith,
    check_rate-Counted rl cfg ip v now,
    check_rate-Counted rl cfg ip (record v { blocked = false }) now,
  )

  allow_local-Counted :
      (rl : RateLimiter S) (ip endpoint : Bytes) (now : ℕ)
      → Counted rl (allow_local hash rl ip endpoint now)
  unfolding allow_local store put_shard
  allow_local-Counted rl ip endpoint now = elim (Option-cases (find hash rl ip)) [
    | inl new ↦ rw (new, allow_local) (omega arith)
    | inr (v, known) ↦
        rw (known, allow_local)
          (check_visitor-Counted rl (get_endpoint_config rl.config endpoint) ip v now)
  ]

module _ (hash : Bytes → ℕ) {S : Type 0} (b : Backend S) where
  allow_backend-Counted :
      (o : Option S) (rl : RateLimiter S) (ip endpoint : Bytes) (now : ℕ)
      → Counted rl (allow_backend hash b o rl ip endpoint now)
  unfolding allow_backend
  allow_backend-Counted none rl ip endpoint now = allow_local-Counted hash rl ip endpoint now
  allow_backend-Counted (some s) rl ip endpoint now = ground arith

  -- Every decision of `AllowEndpoint`, with or without a backend, adds 1 to `totalAllowed` if the
  -- request passes and to `totalBlocked` if not, and nothing to the other counter.
  pub allow_endpoint-Counted :
      (rl : RateLimiter S) (ip endpoint : Bytes) (now : ℕ)
      → Counted rl (allow_endpoint hash b rl ip endpoint now)
  unfolding allow_endpoint
  allow_endpoint-Counted rl ip endpoint now =
      ground (arith, allow_backend-Counted rl.redis_backend rl ip endpoint now)

module _ (hash : Bytes → ℕ) {S : Type 0} (b : Backend S) where
  -- How many requests a call answers with `wanted`: a call that is no request answers none.
  abbrev pub answered : Bool → Op S → RateLimiter S → ℕ
  answered true (request ip endpoint now) rl =
      if (allow_endpoint hash b rl ip endpoint now).1 then 1 else 0
  answered false (request ip endpoint now) rl =
      if (allow_endpoint hash b rl ip endpoint now).1 then 0 else 1
  answered wanted (_) rl = 0

  -- How many requests of a run were answered with `wanted`, each by the limiter as it was then.
  abbrev pub answers : Bool → List (Op S) → RateLimiter S → ℕ
  answers wanted [] rl = 0
  answers wanted (op ∷ ops) rl = answered wanted op rl + answers wanted ops (step hash b op rl)

  abbrev Kept : RateLimiter S → RateLimiter S → Type 0
  Kept before after =
      (after.total_allowed ≡ before.total_allowed) × (after.total_blocked ≡ before.total_blocked)

  reset-Kept : (rl : RateLimiter S) (ip : Bytes) → Kept rl (reset hash b rl ip)
  unfolding reset reset_all reset_one put_shard
  reset-Kept rl ip = ground arith

  unblock-Kept : (rl : RateLimiter S) (ip : Bytes) → Kept rl (unblock hash b rl ip)
  unfolding unblock store put_shard
  unblock-Kept rl ip = ground arith

  step-answered :
      (op : Op S) (rl : RateLimiter S)
      → ((step hash b op rl).total_allowed ≡ rl.total_allowed + answered true op rl)
        × ((step hash b op rl).total_blocked ≡ rl.total_blocked + answered false op rl)
  unfolding step blacklist whitelist remove_from_blacklist remove_from_whitelist set_redis_backend
      cleanup
  step-answered (request ip endpoint now) rl = allow_endpoint-Counted hash b rl ip endpoint now
  step-answered (clear ip) rl = omega (arith, reset-Kept rl ip)
  step-answered (release ip) rl = omega (arith, unblock-Kept rl ip)
  step-answered (tick now) rl = omega arith
  step-answered (ban ip) rl = omega arith
  step-answered (trust ip) rl = omega arith
  step-answered (unban ip) rl = omega arith
  step-answered (distrust ip) rl = omega arith
  step-answered (connect s) rl = omega arith

  run-answers :
      (ops : List (Op S)) (rl : RateLimiter S)
      → ((run hash b ops rl).total_allowed ≡ rl.total_allowed + answers true ops rl)
        × ((run hash b ops rl).total_blocked ≡ rl.total_blocked + answers false ops rl)
  unfolding run
  run-answers [] rl = omega arith
  run-answers (op ∷ ops) rl =
      omega (arith, run-answers ops (step hash b op rl), step-answered op rl)

  -- After any sequence of calls on a new limiter, `totalAllowed` is the number of the requests that
  -- were answered with true and `totalBlocked` the number of those that were answered with false.
  pub run-counted :
      (cfg : Config) (ops : List (Op S))
      → ((run hash b ops (new_rate_limiter S cfg)).total_allowed
          ≡ answers true ops (new_rate_limiter S cfg))
        × ((run hash b ops (new_rate_limiter S cfg)).total_blocked
            ≡ answers false ops (new_rate_limiter S cfg))
  unfolding new_rate_limiter
  run-counted cfg ops = omega (arith, run-answers ops (new_rate_limiter S cfg))
