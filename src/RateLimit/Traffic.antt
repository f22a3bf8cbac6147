-- ===== src/RateLimit/Traffic.antt =====
-- Traffic through internal/app/ratelimit/ratelimit.go: requests of many addresses and endpoints,
-- with `cleanup` in between, in the order in which the limiter takes its locks.
use obsidian.Common.Map.{Map, lookup, insert, lookup-insert, is_some}
use obsidian.Common.{
  ℕ, ◌%◌, ◌≤◌, ◌≡◌, ◌≢◌, All, get_or-replicate, refl, ap, ◌∙◌, inl, inr, ◌⊎◌, ◌||◌, ◌&&◌, Bool,
  true, List, [], ◌∷◌, none, arith, Bytes, same, same_iff, if◌then◌else◌,
}
use obsidian.RateLimit.{
  num_shards, normalize_ip, Shard, Config, Backend, RateLimiter, new_rate_limiter, store_all,
}
use obsidian.RateLimit.Visitors.{get_shard, find, allow_local, cleanup, allowed, refused}
use obsidian.RateLimit.Api.{allow_backend, allow_endpoint, Op, request, tick, step}
use obsidian.RateLimit.Shards.{IsValid}
use obsidian.RateLimit.Valid.{allow_endpoint-IsValid, cleanup-IsValid, new_rate_limiter-IsValid}
use obsidian.RateLimit.Refine.{allow_local-Visited}

-- Requests and clean-ups alone, at times that do not fall from `t` on.
abbrev pub Traffic : {S : Type 0} → ℕ → List (Op S) → Type 0
Traffic t [] = Unit
Traffic t (request ip endpoint now ∷ ops) = (t ≤ now) × Traffic now ops
Traffic t (tick now ∷ ops) = (t ≤ now) × Traffic now ops
Traffic t (_ ∷ ops) = ⊥

module _ (hash : Bytes → ℕ) {S : Type 0} (b : Backend S) where
  -- The times at which the limiter let a request of the address pass.
  unfoldable pub passed : Bytes → List (Op S) → RateLimiter S → List ℕ
  passed ip [] rl = []
  passed ip (request j endpoint now ∷ ops) rl =
      let later = passed ip ops (step hash b (request j endpoint now) rl) in
      if same j ip && (allow_endpoint hash b rl j endpoint now).1 then now ∷ later else later
  passed ip (op ∷ ops) rl = passed ip ops (step hash b op rl)

  -- With no backend an answer comes from the lists, which change nothing but a counter, or from
  -- the visitors.
  pub allow_endpoint-cases :
      (rl : RateLimiter S) (ip endpoint : Bytes) (now : ℕ)
      → rl.redis_backend ≡ none
      → ((allow_endpoint hash b rl ip endpoint now ≡ allowed rl)
          × (is_some (lookup ip rl.whitelist) || is_some (lookup (normalize_ip ip) rl.whitelist)
              ≡ true))
        ⊎ (allow_endpoint hash b rl ip endpoint now ≡ refused rl)
        ⊎ (allow_endpoint hash b rl ip endpoint now ≡ allow_local hash rl ip endpoint now)
  unfolding allow_endpoint allow_backend
  allow_endpoint-cases rl ip endpoint now e = ground arith

module _ (hash : Bytes → ℕ) {S : Type 0} (b : Backend S) (cfg : Config) (ip : Bytes) where
  -- The limiter has no backend, the configuration `cfg`, and does not trust `ip`.
  pub record Guards (rl : RateLimiter S) : Type 0 where
    pub valid : IsValid rl
    pub no_backend : rl.redis_backend ≡ none
    pub configured : rl.config ≡ cfg
    pub not_trusted : lookup ip rl.whitelist ≡ none
    pub not_trusted_normalized : lookup (normalize_ip ip) rl.whitelist ≡ none

  Guards-keep :
      {rl : RateLimiter S} (kept : RateLimiter S)
      → IsValid kept
      → kept.redis_backend ≡ rl.redis_backend
      → kept.config ≡ rl.config
      → kept.whitelist ≡ rl.whitelist
      → Guards rl
      → Guards kept
  Guards-keep kept v r c w g = record {
    valid = v;
    no_backend = r ∙ g.no_backend;
    configured = c ∙ g.configured;
    not_trusted = rw w g.not_trusted;
    not_trusted_normalized = rw w g.not_trusted_normalized;
  }

  pub allow_endpoint-Guards :
      (rl : RateLimiter S) (j endpoint : Bytes) (now : ℕ)
      → Guards rl
      → Guards (allow_endpoint hash b rl j endpoint now).0
  allow_endpoint-Guards rl j endpoint now g =
      let v = allow_endpoint-IsValid hash b rl j endpoint now g.valid in
      elim (allow_endpoint-cases hash b rl j endpoint now g.no_backend) [
        | inl (e, trusted) ↦
            Guards-keep _ v (ap (λ r. r.0.redis_backend) e) (ap (λ r. r.0.config) e)
              (ap (λ r. r.0.whitelist) e) g
        | inr (inl e) ↦
            Guards-keep _ v (ap (λ r. r.0.redis_backend) e) (ap (λ r. r.0.config) e)
              (ap (λ r. r.0.whitelist) e) g
        | inr (inr e) ↦
            let w = allow_local-Visited hash rl j endpoint now g.valid in
            Guards-keep _ v (ap (λ r. r.0.redis_backend) e ∙ w.same_backend)
              (ap (λ r. r.0.config) e ∙ w.same_config)
              (ap (λ r. r.0.whitelist) e ∙ w.same_whitelist) g
      ]

  pub cleanup-Guards : (rl : RateLimiter S) (now : ℕ) → Guards rl → Guards (cleanup rl now)
  unfolding cleanup
  cleanup-Guards rl now g = Guards-keep _ (cleanup-IsValid rl now g.valid) refl refl refl g

-- An address that the configuration does not trust is not on a new limiter's whitelist.
lookup-store_all :
    (ip : Bytes) (ips : List Bytes) (m : Map Bool)
    → All (λ w. w ≢ ip) ips
    → lookup ip m ≡ none
    → lookup ip (store_all ips m) ≡ none
unfolding store_all
lookup-store_all ip [] m h e = e
lookup-store_all ip (w ∷ ips) m h e =
    lookup-store_all ip ips (insert w true m) h.1
      (ground (arith, lookup-insert w ip true m, same_iff w ip, h.0))

pub find-new_rate_limiter :
    (hash : Bytes → ℕ) (S : Type 0) (cfg : Config) (ip : Bytes)
    → find hash (new_rate_limiter S cfg) ip ≡ none
unfolding new_rate_limiter find get_shard lookup
find-new_rate_limiter hash S cfg ip =
    rw (get_or-replicate {A = Shard} num_shards (hash ip % num_shards) [])

pub new_rate_limiter-Guards :
    (hash : Bytes → ℕ) {S : Type 0} (b : Backend S) (cfg : Config) (ip : Bytes)
    → All (λ w. w ≢ ip) cfg.whitelist
    → All (λ w. w ≢ normalize_ip ip) cfg.whitelist
    → Guards hash b cfg ip (new_rate_limiter S cfg)
unfolding new_rate_limiter lookup
new_rate_limiter-Guards hash {S} b cfg ip w w' = record {
  valid = new_rate_limiter-IsValid S cfg;
  no_backend = refl;
  configured = refl;
  not_trusted = lookup-store_all ip cfg.whitelist [] w refl;
  not_trusted_normalized = lookup-store_all (normalize_ip ip) cfg.whitelist [] w' refl;
}
