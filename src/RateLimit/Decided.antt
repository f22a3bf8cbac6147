-- ===== src/RateLimit/Decided.antt =====
-- `AllowEndpoint` of internal/app/ratelimit/ratelimit.go without a backend: the lists of the limiter
-- first, then the visitor of the address.
use mathlib.Core.Path.{subst}
use obsidian.Common.Map.{is_some, lookup}
use obsidian.Common.{
  ℕ, ◌≡◌, ◌⊎◌, refl, inl, inr, Bool, true, false, ◌||◌, none, arith, Bytes, Bool-cases, sym,
}
use obsidian.RateLimit.{Backend, RateLimiter, normalize_ip}
use obsidian.RateLimit.Api.{allow_backend, allow_endpoint}
use obsidian.RateLimit.Endpoint.{get_endpoint_config}
use obsidian.RateLimit.Refine.{Visited, allow_local-Visited, find-shards}
use obsidian.RateLimit.Shards.{IsValid}
use obsidian.RateLimit.Visitors.{allowed, find, refused}

-- The address is on the whitelist, as it stands or normalised.
abbrev pub is_trusted : {S : Type 0} → RateLimiter S → Bytes → Bool
is_trusted rl ip =
    is_some (lookup ip rl.whitelist) || is_some (lookup (normalize_ip ip) rl.whitelist)

abbrev pub is_banned : {S : Type 0} → RateLimiter S → Bytes → Bool
is_banned rl ip = is_some (lookup ip rl.blacklist)

module _ (hash : Bytes → ℕ) {S : Type 0} where
  -- The answer is `ok`, and every visitor, the lists, the configuration and the backend stay.
  abbrev pub Unmoved : RateLimiter S → Bool → RateLimiter S × Bool → Type 0
  Unmoved rl ok out =
      (out.1 ≡ ok)
      × ((j : Bytes) → find hash out.0 j ≡ find hash rl j)
      × (out.0.config ≡ rl.config)
      × (out.0.whitelist ≡ rl.whitelist)
      × (out.0.blacklist ≡ rl.blacklist)
      × (out.0.redis_backend ≡ rl.redis_backend)

  -- In a limiter that `IsValid` holds of and that has no backend, `AllowEndpoint` admits a trusted
  -- address and refuses one that is banned and not trusted, and changes no visitor then. For any
  -- other address it acts on one map of visitors: it answers as `visit` does, replaces the visitor of
  -- the address by that of `visit`, and changes no other visitor, no list, not the configuration and
  -- not the backend.
  pub allow_endpoint-Visited :
      (b : Backend S) (rl : RateLimiter S) (ip endpoint : Bytes) (now : ℕ)
      → IsValid rl
      → rl.redis_backend ≡ none
      → ((is_trusted rl ip ≡ true) × Unmoved rl true (allow_endpoint hash b rl ip endpoint now))
        ⊎ (((is_trusted rl ip ≡ false)
              × (is_banned rl ip ≡ true)
              × Unmoved rl false (allow_endpoint hash b rl ip endpoint now))
            ⊎ ((is_trusted rl ip ≡ false)
                × (is_banned rl ip ≡ false)
                × Visited hash rl
                    (get_endpoint_config rl.config endpoint)
                    ip
                    now
                    (allow_endpoint hash b rl ip endpoint now)))
  unfolding allow_endpoint allow_backend
  allow_endpoint-Visited b rl ip endpoint now h local =
      elim (Bool-cases (is_some (lookup ip rl.whitelist))) [
        | inl w ↦ inl (
            rw (w, allow_endpoint)
              (
                refl,
                (refl, (λ j. find-shards hash rl (allowed rl).0 j refl), refl, refl, refl, refl),
              ))
        | inr w ↦ elim (Bool-cases (is_some (lookup (normalize_ip ip) rl.whitelist))) [
          | inl n ↦ inl (
              rw (w, n, allow_endpoint)
                (
                  refl,
                  (refl, (λ j. find-shards hash rl (allowed rl).0 j refl), refl, refl, refl, refl),
                ))
          | inr n ↦ elim (Bool-cases (is_banned rl ip)) [
            | inl e ↦ inr (
                inl (
                  rw (w, n, e, allow_endpoint)
                    (
                      refl,
                      refl,
                      (
                        refl,
                        (λ j. find-shards hash rl (refused rl).0 j refl),
                        refl,
                        refl,
                        refl,
                        refl,
                      ),
                    )))
            | inr e ↦ inr (
                inr (
                  ground (arith, w, n),
                  e,
                  subst (Visited hash rl (get_endpoint_config rl.config endpoint) ip now)
                      (sym (ground (arith, w, n, e, local)))
                      (allow_local-Visited hash rl ip endpoint now h),
                ))
          ]
        ]
      ]
