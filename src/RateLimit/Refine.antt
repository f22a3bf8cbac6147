-- ===== src/RateLimit/Refine.antt =====
-- The limiter of internal/app/ratelimit/ratelimit.go seen as one map from addresses to visitors:
-- a request acts on the visitor of its address alone, and so does `cleanup` on every visitor.
use obsidian.Common.Map.{lookup, sweep, lookup-sweep}
use obsidian.Common.{
  ℕ, zero, suc, ◌+◌, ◌*◌, ◌/◌, ◌%◌, ◌≡◌, refl, ap, ◌∙◌, inl, inr, ◌&&◌, Bool, true, false, List, [],
  ◌∷◌, ◌++◌, Option, none, some, arith, Bytes, same, same_iff, length, get_or, if◌then◌else◌,
  Bool-cases, Option-cases, leb, ltb,
}
use obsidian.RateLimit.{second, num_shards, recent, Shard, Visitor, EndpointConfig, RateLimiter}
use obsidian.RateLimit.Endpoint.{get_endpoint_config}
use obsidian.RateLimit.Visitors.{
  get_shard, put_shard, find, store, check_rate, check_visitor, allow_local, tidy, cleanup,
  sweep_shards, refused,
}
use obsidian.RateLimit.Shards.{IsValid, find-store, get_shard-IsMap}

-- What a request at `now` does to the visitor of its address, and its answer.
unfoldable pub visit : EndpointConfig → ℕ → Option Visitor → Option Visitor × Bool
visit cfg now none =
    (some (record { timestamps = now ∷ []; blocked = false; block_until = 0 }), true)
visit cfg now (some v) =
    if v.blocked && leb now (v.block_until * second)
    then (some v, false)
    else if leb cfg.requests_per_minute (length (recent now v.timestamps))
    then (
      some (record {
        timestamps = recent now v.timestamps;
        blocked = true;
        block_until = (now + cfg.block_duration) / second;
      }),
      false,
    )
    else (
      some (record {
        timestamps = recent now v.timestamps ++ now ∷ [];
        blocked = false;
        block_until = v.block_until;
      }),
      true,
    )

get_or-sweep :
    (now i : ℕ) (shs : List Shard)
    → get_or (sweep_shards now shs) i [] ≡ sweep (tidy now) (get_or shs i [])
unfolding sweep_shards sweep
get_or-sweep now i [] = refl
get_or-sweep now zero (sh ∷ shs) = refl
get_or-sweep now (suc i) (sh ∷ shs) = get_or-sweep now i shs

module _ (hash : Bytes → ℕ) {S : Type 0} where
  -- The call did to the visitor of `ip` what `visit` does, and left all else as it was.
  pub record Visited (rl : RateLimiter S) (cfg : EndpointConfig) (ip : Bytes) (now : ℕ)
      (out : RateLimiter S × Bool) : Type 0 where
    pub found :
        (j : Bytes)
        → find hash out.0 j
          ≡ (if same ip j then (visit cfg now (find hash rl ip)).0 else find hash rl j)
    pub answered : out.1 ≡ (visit cfg now (find hash rl ip)).1
    pub same_config : out.0.config ≡ rl.config
    pub same_whitelist : out.0.whitelist ≡ rl.whitelist
    pub same_blacklist : out.0.blacklist ≡ rl.blacklist
    pub same_backend : out.0.redis_backend ≡ rl.redis_backend

  pub find-shards :
      (rl kept : RateLimiter S) (j : Bytes)
      → kept.shards ≡ rl.shards
      → find hash kept j ≡ find hash rl j
  unfolding find get_shard
  find-shards rl kept j e =
      ap (λ (shs : List Shard). lookup j (get_or shs (hash j % num_shards) [])) e

  -- The visitor `v` is stored, and the answer is `ok`.
  stored-Visited :
      (rl : RateLimiter S) (cfg : EndpointConfig) (ip : Bytes) (now : ℕ) (v : Visitor)
      (out : RateLimiter S × Bool)
      → IsValid rl
      → out.0.shards ≡ (store hash rl ip v).shards
      → out.0.config ≡ rl.config
      → out.0.whitelist ≡ rl.whitelist
      → out.0.blacklist ≡ rl.blacklist
      → out.0.redis_backend ≡ rl.redis_backend
      → visit cfg now (find hash rl ip) ≡ (some v, out.1)
      → Visited rl cfg ip now out
  stored-Visited rl cfg ip now v out h shards c w bl r e = record {
    found = λ j.
        find-shards (store hash rl ip v) out.0 j shards
        ∙ find-store hash rl ip j v h.sized
        ∙ rw e refl;
    answered = rw e refl;
    same_config = c;
    same_whitelist = w;
    same_blacklist = bl;
    same_backend = r;
  }

  check_rate-Visited :
      (rl : RateLimiter S) (cfg : EndpointConfig) (ip : Bytes) (v : Visitor) (now : ℕ)
      → IsValid rl
      → (v' : Visitor) → find hash rl ip ≡ some v'
      → v'.timestamps ≡ v.timestamps
      → v'.block_until ≡ v.block_until
      → v.blocked ≡ false
      → (v'.blocked && leb now (v'.block_until * second)) ≡ false
      → Visited rl cfg ip now (check_rate hash rl cfg ip v now)
  unfolding check_rate visit
  check_rate-Visited rl cfg ip v now h v' known ts until free open_now =
      elim (Bool-cases (leb cfg.requests_per_minute (length (recent now v.timestamps)))) [
        | inl full ↦ rw full (
            stored-Visited rl cfg ip now _ _ h refl (unfold store put_shard in refl)
              (unfold store put_shard in refl) (unfold store put_shard in refl)
              (unfold store put_shard in refl) (ground arith))
        | inr room ↦ rw room (
            stored-Visited rl cfg ip now _ _ h refl (unfold store put_shard in refl)
              (unfold store put_shard in refl) (unfold store put_shard in refl)
              (unfold store put_shard in refl) (ground arith))
      ]

  refused-Visited :
      (rl : RateLimiter S) (cfg : EndpointConfig) (ip : Bytes) (v : Visitor) (now : ℕ)
      → find hash rl ip ≡ some v
      → (v.blocked && leb now (v.block_until * second)) ≡ true
      → Visited rl cfg ip now (refused rl)
  unfolding visit
  refused-Visited rl cfg ip v now known closed = record {
    found = λ j. find-shards rl (refused rl).0 j refl ∙ ground (arith, same_iff ip j);
    answered = ground arith;
    same_config = refl;
    same_whitelist = refl;
    same_blacklist = refl;
    same_backend = refl;
  }

  check_visitor-Visited :
      (rl : RateLimiter S) (cfg : EndpointConfig) (ip : Bytes) (v : Visitor) (now : ℕ)
      → IsValid rl
      → find hash rl ip ≡ some v
      → Visited rl cfg ip now (check_visitor hash rl cfg ip v now)
  unfolding check_visitor
  check_visitor-Visited rl cfg ip v now h known = elim (Bool-cases v.blocked) [
    | inr free ↦
        simp free (check_rate-Visited rl cfg ip v now h v known refl refl free (ground arith))
    | inl blocked ↦ elim (Bool-cases (ltb (v.block_until * second) now)) [
      | inl over ↦
          simp (blocked, over)
            (check_rate-Visited rl cfg ip (record v { blocked = false }) now h v known refl refl
              refl (ground arith))
      | inr still ↦ simp (blocked, still) (refused-Visited rl cfg ip v now known (ground arith))
    ]
  ]

  -- In a limiter that `IsValid` holds of, `allow_local`, which is `AllowEndpoint` behind the lists and
  -- without a backend, does what `visit` does to the visitor of the address, and nothing else.
  pub allow_local-Visited :
      (rl : RateLimiter S) (ip endpoint : Bytes) (now : ℕ)
      → IsValid rl
      → Visited rl
          (get_endpoint_config rl.config endpoint)
          ip
          now
          (allow_local hash rl ip endpoint now)
  unfolding allow_local visit
  allow_local-Visited rl ip endpoint now h = elim (Option-cases (find hash rl ip)) [
    | inl new ↦
        rw (new, allow_local)
          (stored-Visited rl _ ip now _ _ h refl (unfold store put_shard in refl)
            (unfold store put_shard in refl) (unfold store put_shard in refl)
            (unfold store put_shard in refl) (rw (new, visit)))
    | inr (v, known) ↦ rw (known, allow_local) (check_visitor-Visited rl _ ip v now h known)
  ]

  -- `cleanup` tidies every visitor.
  pub find-cleanup :
      (rl : RateLimiter S) (now : ℕ) (ip : Bytes)
      → IsValid rl
      → find hash (cleanup rl now) ip ≡ elim (find hash rl ip) [ none ↦ none | some v ↦ tidy now v ]
  unfolding find cleanup get_shard
  find-cleanup rl now ip h =
      rw (get_or-sweep now (hash ip % num_shards) rl.shards)
        (lookup-sweep (tidy now) ip (get_shard hash rl ip) (get_shard-IsMap hash rl ip h.maps))
