-- ===== src/RateLimit/Access.antt =====
-- What the administrator's calls of internal/app/ratelimit/ratelimit.go do to later requests, and
-- the counters of the decisions.
use obsidian.Common.Map.{lookup, delete, lookup-insert, lookup-delete}
use obsidian.Common.{
  ℕ, zero, suc, ◌%◌, ◌≤◌, ◌≡◌, refl, ap, ◌∙◌, inl, inr, ◌⊎◌, true, false, List, [], ◌∷◌, map, keep,
  none, some, arith, Bytes, same, same_iff, same_refl, Bool-cases, Option-cases, get_or,
}
use obsidian.RateLimit.{
  num_shards, recent, is_recent, normalize_ip, Shard, Visitor, Backend, RateLimiter,
}
use obsidian.RateLimit.Endpoint.{get_endpoint_config}
use obsidian.RateLimit.Visitors.{
  find, get_shard, put_shard, store, check_rate, check_visitor, allow_local,
}
use obsidian.RateLimit.Api.{
  allow_backend, allow_endpoint, blacklist, whitelist, empty_shard, reset, reset_all, reset_one,
  unblock,
}
use obsidian.RateLimit.Shards.{IsValid, find-store, get_shard-put_shard}
use obsidian.RateLimit.Refine.{find-shards}

get_or-empty : (shs : List Shard) (i : ℕ) → get_or (map empty_shard shs) i [] ≡ []
get_or-empty [] i = refl
get_or-empty (sh ∷ shs) zero = refl
get_or-empty (sh ∷ shs) (suc i) = get_or-empty shs i

module _ (hash : Bytes → ℕ) {S : Type 0} (b : Backend S) where
  -- After `Blacklist(ip)` a request of that address is refused, unless its normalised form is
  -- another address that is on the whitelist.
  pub allow_endpoint-blacklist :
      (rl : RateLimiter S) (ip endpoint : Bytes) (now : ℕ)
      → (normalize_ip ip ≡ ip) ⊎ (lookup (normalize_ip ip) rl.whitelist ≡ none)
      → (allow_endpoint hash b (blacklist hash b rl ip) ip endpoint now).1 ≡ false
  unfolding allow_endpoint blacklist
  allow_endpoint-blacklist rl ip endpoint now h = ground (
    arith,
    lookup-delete ip ip rl.whitelist,
    lookup-insert ip ip true rl.blacklist,
    lookup-delete ip (normalize_ip ip) rl.whitelist,
    same_refl ip,
    same_iff ip (normalize_ip ip),
    h,
  )

  -- After `Whitelist(ip)` every request of an address that is `ip`, or is normalised to it, passes,
  -- whatever the lists, the visitors and the backend hold.
  pub allow_endpoint-whitelist :
      (rl : RateLimiter S) (ip j endpoint : Bytes) (now : ℕ)
      → (j ≡ ip) ⊎ (normalize_ip j ≡ ip)
      → (allow_endpoint hash b (whitelist hash b rl ip) j endpoint now).1 ≡ true
  unfolding allow_endpoint whitelist
  allow_endpoint-whitelist rl ip j endpoint now h = ground (
    arith,
    lookup-insert ip j true rl.whitelist,
    lookup-insert ip (normalize_ip j) true rl.whitelist,
    same_iff ip j,
    same_iff ip (normalize_ip j),
    h,
  )

  local_passes :
      (rl : RateLimiter S) (ip endpoint : Bytes) (now : ℕ)
      → rl.redis_backend ≡ none
      → lookup ip rl.blacklist ≡ none
      → (allow_local hash rl ip endpoint now).1 ≡ true
      → (allow_endpoint hash b rl ip endpoint now).1 ≡ true
  unfolding allow_endpoint allow_backend
  local_passes rl ip endpoint now r n h = ground arith

  unknown_passes :
      (rl : RateLimiter S) (ip endpoint : Bytes) (now : ℕ)
      → find hash rl ip ≡ none
      → (allow_local hash rl ip endpoint now).1 ≡ true
  unfolding allow_local
  unknown_passes rl ip endpoint now new = rw (new, allow_local)

  reset-backend :
      (rl : RateLimiter S) (k : Bytes)
      → rl.redis_backend ≡ none
      → (reset hash b rl k).redis_backend ≡ none
  unfolding reset reset_all reset_one
  reset-backend rl k r = ground arith

  reset-blacklist : (rl : RateLimiter S) (k : Bytes) → (reset hash b rl k).blacklist ≡ rl.blacklist
  unfolding reset reset_all reset_one put_shard
  reset-blacklist rl k = ground arith

  find-reset_all : (rl : RateLimiter S) (ip : Bytes) → find hash (reset_all hash b rl) ip ≡ none
  unfolding find get_shard reset_all lookup
  find-reset_all rl ip = rw (get_or-empty rl.shards (hash ip % num_shards))

  find-delete :
      (rl : RateLimiter S) (ip : Bytes)
      → IsValid rl
      → find hash (put_shard hash rl ip (delete ip (get_shard hash rl ip))) ip ≡ none
  unfolding find
  find-delete rl ip v =
      let kept = delete ip (get_shard hash rl ip) in
      ground (
        arith,
        get_shard-put_shard hash rl ip ip kept v.sized,
        same_refl ip,
        lookup-delete ip ip (get_shard hash rl ip),
      )

  find-reset_one :
      (rl : RateLimiter S) (ip : Bytes) → IsValid rl → find hash (reset_one hash b rl ip) ip ≡ none
  unfolding reset_one
  find-reset_one rl ip v = elim (Option-cases (find hash rl ip)) [
    | inl absent ↦ rw (absent, reset_one) (find-shards hash rl _ ip refl ∙ absent)
    | inr (w, known) ↦
        rw (known, reset_one)
          (find-shards hash (put_shard hash rl ip (delete ip (get_shard hash rl ip))) _ ip refl
            ∙ find-delete rl ip v)
  ]

  find-reset :
      (rl : RateLimiter S) (ip k : Bytes)
      → IsValid rl
      → (k ≡ ip) ⊎ (k ≡ [])
      → find hash (reset hash b rl k) ip ≡ none
  unfolding reset
  find-reset rl ip k v (inl e) = elim (Bool-cases (same k [])) [
    | inl all ↦ rw (all, reset) (find-reset_all rl ip)
    | inr one ↦ rw (one, reset) (rw e (find-reset_one rl ip v))
  ]
  find-reset rl ip k v (inr e) = rw ((same_iff k []).1 e, reset) (find-reset_all rl ip)

  -- Right after `Reset(ip)`, or `Reset("")`, a request of the address passes, if there is no
  -- backend and the address is not blacklisted: the limiter has forgotten it.
  pub allow_endpoint-reset :
      (rl : RateLimiter S) (ip k endpoint : Bytes) (now : ℕ)
      → IsValid rl
      → (k ≡ ip) ⊎ (k ≡ [])
      → rl.redis_backend ≡ none
      → lookup ip rl.blacklist ≡ none
      → (allow_endpoint hash b (reset hash b rl k) ip endpoint now).1 ≡ true
  allow_endpoint-reset rl ip k endpoint now v w r free =
      local_passes (reset hash b rl k) ip endpoint now (reset-backend rl k r)
        (ap (lookup ip) (reset-blacklist rl k) ∙ free)
        (unknown_passes _ ip endpoint now (find-reset rl ip k v w))

  unblock-backend :
      (rl : RateLimiter S) (ip : Bytes)
      → rl.redis_backend ≡ none
      → (unblock hash b rl ip).redis_backend ≡ none
  unfolding unblock
  unblock-backend rl ip r = ground arith

  unblock-blacklist :
      (rl : RateLimiter S) (ip : Bytes) → (unblock hash b rl ip).blacklist ≡ rl.blacklist
  unfolding unblock store put_shard
  unblock-blacklist rl ip = ground arith

  free_passes :
      (rl : RateLimiter S) (ip endpoint : Bytes) (now : ℕ) (v : Visitor)
      → find hash rl ip ≡ some v
      → v.timestamps ≡ []
      → v.blocked ≡ false
      → 1 ≤ (get_endpoint_config rl.config endpoint).requests_per_minute
      → (allow_local hash rl ip endpoint now).1 ≡ true
  unfolding allow_local check_visitor check_rate recent
  free_passes rl ip endpoint now v known e free one = ground (arith, ap (keep (is_recent now)) e)

  unblocked_passes :
      (rl : RateLimiter S) (ip endpoint : Bytes) (now : ℕ)
      → IsValid rl
      → 1 ≤ (get_endpoint_config rl.config endpoint).requests_per_minute
      → (allow_local hash (unblock hash b rl ip) ip endpoint now).1 ≡ true
  unfolding unblock
  unblocked_passes rl ip endpoint now v one = elim (Option-cases (find hash rl ip)) [
    | inl absent ↦
        unknown_passes _ ip endpoint now
          (rw (absent, unblock) (find-shards hash rl _ ip refl ∙ absent))
    | inr (w, known) ↦
        let cleared : Visitor = record w { blocked = false; timestamps = [] } in
        rw (known, unblock)
          (free_passes _ ip endpoint now cleared
            (find-shards hash (store hash rl ip cleared) _ ip refl
              ∙ find-store hash rl ip ip cleared v.sized
              ∙ rw (same_refl ip))
            refl refl (unfold store put_shard in one))
  ]

  -- Right after `Unblock(ip)` a request of the address passes, if there is no backend, the address
  -- is not blacklisted, and the endpoint admits a request at all.
  pub allow_endpoint-unblock :
      (rl : RateLimiter S) (ip endpoint : Bytes) (now : ℕ)
      → IsValid rl
      → rl.redis_backend ≡ none
      → lookup ip rl.blacklist ≡ none
      → 1 ≤ (get_endpoint_config rl.config endpoint).requests_per_minute
      → (allow_endpoint hash b (unblock hash b rl ip) ip endpoint now).1 ≡ true
  allow_endpoint-unblock rl ip endpoint now v r free one =
      local_passes (unblock hash b rl ip) ip endpoint now (unblock-backend rl ip r)
        (ap (lookup ip) (unblock-blacklist rl ip) ∙ free)
        (unblocked_passes rl ip endpoint now v one)
