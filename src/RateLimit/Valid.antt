-- ===== src/RateLimit/Valid.antt =====
-- Every operation of internal/app/ratelimit/ratelimit.go keeps the shards and their counter valid,
-- and each decision is counted.
use obsidian.Common.Int.{pos, ◌-ℤ◌, pos-sub}
use obsidian.Common.Map.{
  sweep, is_some, IsMap, sweep-IsMap, delete, lookup, delete-IsMap, length-delete,
}
use obsidian.Common.{
  ℕ, zero, suc, ◌+◌, ◌*◌, ◌≡◌, refl, sym, ap, ◌∙◌, inl, inr, ◌||◌, Bool, true, false, List, [], ◌∷◌,
  map, Option, none, some, arith, Bytes, same, length, replicate, All, All-replicate,
  length-replicate, Bool-cases, Option-cases, leb, ltb,
}
use obsidian.RateLimit.{
  num_shards, normalize_ip, second, recent, Shard, Visitor, EndpointConfig, Config, Backend,
  RateLimiter, new_rate_limiter,
}
use obsidian.RateLimit.Visitors.{
  get_shard, find, check_rate, check_visitor, allow_local, tidy, removed, removed_all, sweep_shards,
  cleanup, answer,
}
use obsidian.RateLimit.Api.{
  allow_backend, allow_endpoint, blacklist, whitelist, remove_from_blacklist, remove_from_whitelist,
  reset, reset_one, reset_all, unblock, set_redis_backend, empty_shard, Op, request, tick, ban,
  trust, unban, distrust, clear, release, connect, step, run,
}
use obsidian.RateLimit.Shards.{
  IsValid, visitor_count, store-IsValid, store_new-IsValid, put_shard-IsValid, get_shard-IsMap,
}

visitor_count-replicate : (n : ℕ) → visitor_count (replicate n []) ≡ 0
visitor_count-replicate zero = refl
visitor_count-replicate (suc n) = omega (arith, visitor_count-replicate n)

-- A new limiter is valid: it tracks nobody.
pub new_rate_limiter-IsValid : (S : Type 0) (cfg : Config) → IsValid (new_rate_limiter S cfg)
unfolding new_rate_limiter
new_rate_limiter-IsValid S cfg = record {
  sized = length-replicate {A = Shard} num_shards [];
  maps = All-replicate (IsMap {V = Visitor}) num_shards [] tt;
  counted = ap pos (sym (visitor_count-replicate num_shards));
}

module _ {S : Type 0} where
  answer-IsValid : (ok : Bool) (rl : RateLimiter S) → IsValid rl → IsValid (answer ok rl).0
  answer-IsValid true rl h = record { sized = h.sized; maps = h.maps; counted = h.counted }
  answer-IsValid false rl h = record { sized = h.sized; maps = h.maps; counted = h.counted }

module _ (hash : Bytes → ℕ) {S : Type 0} where
  check_rate-IsValid :
      (rl : RateLimiter S) (cfg : EndpointConfig) (ip : Bytes) (old v : Visitor) (now : ℕ)
      → find hash rl ip ≡ some old
      → IsValid rl
      → IsValid (check_rate hash rl cfg ip v now).0
  unfolding check_rate
  check_rate-IsValid rl cfg ip old v now known h =
      elim (Bool-cases (leb cfg.requests_per_minute (length (recent now v.timestamps)))) [
        | inl e ↦ rw e (answer-IsValid false _ (store-IsValid hash rl ip old _ known h))
        | inr e ↦ rw e (answer-IsValid true _ (store-IsValid hash rl ip old _ known h))
      ]

  check_visitor-IsValid :
      (rl : RateLimiter S) (cfg : EndpointConfig) (ip : Bytes) (v : Visitor) (now : ℕ)
      → find hash rl ip ≡ some v
      → IsValid rl
      → IsValid (check_visitor hash rl cfg ip v now).0
  unfolding check_visitor
  check_visitor-IsValid rl cfg ip v now known h = elim (Bool-cases v.blocked) [
    | inr free ↦ simp free (check_rate-IsValid rl cfg ip v v now known h)
    | inl blocked ↦ elim (Bool-cases (ltb (v.block_until * second) now)) [
      | inl over ↦
          simp (blocked, over)
            (check_rate-IsValid rl cfg ip v (record v { blocked = false }) now known h)
      | inr still ↦ simp (blocked, still) (answer-IsValid false rl h)
    ]
  ]

  allow_local-IsValid :
      (rl : RateLimiter S) (ip endpoint : Bytes) (now : ℕ)
      → IsValid rl
      → IsValid (allow_local hash rl ip endpoint now).0
  unfolding allow_local
  allow_local-IsValid rl ip endpoint now h = elim (Option-cases (find hash rl ip)) [
    | inl new ↦ rw (new, allow_local) (answer-IsValid true _ (store_new-IsValid hash rl ip _ new h))
    | inr (v, known) ↦ rw (known, allow_local) (check_visitor-IsValid rl _ ip v now known h)
  ]

sweep_shards-sized : (now : ℕ) (shs : List Shard) → length (sweep_shards now shs) ≡ length shs
unfolding sweep_shards
sweep_shards-sized now [] = refl
sweep_shards-sized now (sh ∷ shs) = ap suc (sweep_shards-sized now shs)

sweep_shards-IsMap : (now : ℕ) (shs : List Shard) → All IsMap shs → All IsMap (sweep_shards now shs)
unfolding sweep_shards
sweep_shards-IsMap now [] h = tt
sweep_shards-IsMap now (sh ∷ shs) h =
    (sweep-IsMap (tidy now) sh h.0, sweep_shards-IsMap now shs h.1)

length-sweep : (now : ℕ) (sh : Shard) → length (sweep (tidy now) sh) + removed now sh ≡ length sh
unfolding sweep removed
length-sweep now [] = omega arith
length-sweep now ((ip, v) ∷ m) = ground (arith, length-sweep now m)

visitor_count-sweep :
    (now : ℕ) (shs : List Shard)
    → visitor_count (sweep_shards now shs) + removed_all now shs ≡ visitor_count shs
unfolding sweep_shards removed_all
visitor_count-sweep now [] = omega arith
visitor_count-sweep now (sh ∷ shs) = omega (arith, length-sweep now sh, visitor_count-sweep now shs)

-- `cleanup` deletes as many visitors as it takes off the counter.
pub cleanup-IsValid :
    {S : Type 0} (rl : RateLimiter S) (now : ℕ) → IsValid rl → IsValid (cleanup rl now)
unfolding cleanup
cleanup-IsValid rl now h =
    let after = visitor_count (sweep_shards now rl.shards) in
    let gone = removed_all now rl.shards in
    record {
      sized = sweep_shards-sized now rl.shards ∙ h.sized;
      maps = sweep_shards-IsMap now rl.shards h.maps;
      counted = ground (arith, h.counted, visitor_count-sweep now rl.shards, pos-sub after gone);
    }

visitor_count-clear : (shs : List Shard) → visitor_count (map empty_shard shs) ≡ 0
visitor_count-clear [] = refl
visitor_count-clear (sh ∷ shs) = omega (arith, visitor_count-clear shs)

clear-sized : (shs : List Shard) → length (map empty_shard shs) ≡ length shs
clear-sized [] = refl
clear-sized (sh ∷ shs) = ap suc (clear-sized shs)

clear-IsMap : (shs : List Shard) → All (IsMap {V = Visitor}) (map empty_shard shs)
clear-IsMap [] = tt
clear-IsMap (sh ∷ shs) = (tt, clear-IsMap shs)

-- A limiter with the same visitors and the same counter of them is as valid.
same_visitors-IsValid :
    {S : Type 0} (rl kept : RateLimiter S)
    → kept.shards ≡ rl.shards
    → kept.total_visitors ≡ rl.total_visitors
    → IsValid rl
    → IsValid kept
same_visitors-IsValid rl kept e f h = record {
  sized = ap length e ∙ h.sized;
  maps = rw e h.maps;
  counted = f ∙ h.counted ∙ ap (λ shs. pos (visitor_count shs)) (sym e);
}

module _ (hash : Bytes → ℕ) {S : Type 0} (b : Backend S) where
  allow_backend-IsValid :
      (o : Option S) (rl : RateLimiter S) (ip endpoint : Bytes) (now : ℕ)
      → IsValid rl
      → IsValid (allow_backend hash b o rl ip endpoint now).0
  unfolding allow_backend
  allow_backend-IsValid none rl ip endpoint now h = allow_local-IsValid hash rl ip endpoint now h
  allow_backend-IsValid (some s) rl ip endpoint now h =
      elim (Bool-cases (b.is_blacklisted s (normalize_ip ip) || b.is_blacklisted s ip)) [
        | inl e ↦ rw e (answer-IsValid false rl h)
        | inr e ↦ rw e (
            answer-IsValid (b.allow_endpoint s ip endpoint now).1 _
              (same_visitors-IsValid rl _ refl refl h))
      ]

  pub allow_endpoint-IsValid :
      (rl : RateLimiter S) (ip endpoint : Bytes) (now : ℕ)
      → IsValid rl
      → IsValid (allow_endpoint hash b rl ip endpoint now).0
  unfolding allow_endpoint
  allow_endpoint-IsValid rl ip endpoint now h =
      elim (Bool-cases (is_some (lookup ip rl.whitelist))) [
        | inl e ↦ rw e (answer-IsValid true rl h)
        | inr e ↦ rw e (elim (Bool-cases (is_some (lookup (normalize_ip ip) rl.whitelist))) [
          | inl f ↦ rw f (answer-IsValid true rl h)
          | inr f ↦ rw f (elim (Bool-cases (is_some (lookup ip rl.blacklist))) [
            | inl g ↦ rw g (answer-IsValid false rl h)
            | inr g ↦ rw g (allow_backend-IsValid rl.redis_backend rl ip endpoint now h)
          ])
        ])
      ]

  reset_one-IsValid :
      (rl : RateLimiter S) (ip : Bytes) → IsValid rl → IsValid (reset_one hash b rl ip)
  unfolding reset_one find
  reset_one-IsValid rl ip h =
      let sh = get_shard hash rl ip in
      elim (Option-cases (lookup ip sh)) [
        | inl absent ↦ rw absent (same_visitors-IsValid rl _ refl refl h)
        | inr (v, known) ↦ rw known (
            same_visitors-IsValid _ _ refl refl (
              put_shard-IsValid hash rl ip (delete ip sh) (rl.total_visitors -ℤ pos 1) h
                (delete-IsMap ip sh (get_shard-IsMap hash rl ip h.maps))
                (λ n e. ground (
                  arith,
                  h.counted,
                  pos-sub n 1,
                  known,
                  length-delete ip sh (get_shard-IsMap hash rl ip h.maps),
                ))))
      ]

  reset-IsValid : (rl : RateLimiter S) (ip : Bytes) → IsValid rl → IsValid (reset hash b rl ip)
  unfolding reset reset_all
  reset-IsValid rl ip h = elim (Bool-cases (same ip [])) [
    | inr e ↦ rw e (reset_one-IsValid rl ip h)
    | inl e ↦ rw e (record {
      sized = clear-sized rl.shards ∙ h.sized;
      maps = clear-IsMap rl.shards;
      counted = ap pos (sym (visitor_count-clear rl.shards));
    })
  ]

  unblock-IsValid : (rl : RateLimiter S) (ip : Bytes) → IsValid rl → IsValid (unblock hash b rl ip)
  unfolding unblock
  unblock-IsValid rl ip h = elim (Option-cases (find hash rl ip)) [
    | inl absent ↦ rw absent (same_visitors-IsValid rl _ refl refl h)
    | inr (v, known) ↦
        rw known (same_visitors-IsValid _ _ refl refl (store-IsValid hash rl ip v _ known h))
  ]

  step-IsValid : (op : Op S) (rl : RateLimiter S) → IsValid rl → IsValid (step hash b op rl)
  unfolding step blacklist whitelist remove_from_blacklist remove_from_whitelist set_redis_backend
  step-IsValid (request ip endpoint now) rl h = allow_endpoint-IsValid rl ip endpoint now h
  step-IsValid (tick now) rl h = cleanup-IsValid rl now h
  step-IsValid (ban ip) rl h = same_visitors-IsValid rl _ refl refl h
  step-IsValid (trust ip) rl h = same_visitors-IsValid rl _ refl refl h
  step-IsValid (unban ip) rl h = same_visitors-IsValid rl _ refl refl h
  step-IsValid (distrust ip) rl h = same_visitors-IsValid rl _ refl refl h
  step-IsValid (clear ip) rl h = reset-IsValid rl ip h
  step-IsValid (release ip) rl h = unblock-IsValid rl ip h
  step-IsValid (connect s) rl h = same_visitors-IsValid rl _ refl refl h

  run_from-IsValid :
      (ops : List (Op S)) (rl : RateLimiter S) → IsValid rl → IsValid (run hash b ops rl)
  unfolding run
  run_from-IsValid [] rl h = h
  run_from-IsValid (op ∷ ops) rl h = run_from-IsValid ops _ (step-IsValid op rl h)

  -- After any sequence of calls on a new limiter there are 256 shards, no shard holds an address
  -- twice, and `totalVisitors` is the number of visitors that the shards hold.
  pub run-IsValid :
      (cfg : Config) (ops : List (Op S)) → IsValid (run hash b ops (new_rate_limiter S cfg))
  run-IsValid cfg ops = run_from-IsValid ops _ (new_rate_limiter-IsValid S cfg)
