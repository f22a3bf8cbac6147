-- ===== src/RateLimit/Bound.antt =====
-- The rate of the traffic through internal/app/ratelimit/ratelimit.go: requests of many addresses and endpoints,
-- with `cleanup` in between, in the order in which the limiter takes its locks.
use obsidian.Common.{
  ℕ, ◌≤◌, ◌≡◌, ◌≢◌, All, refl, inl, inr, ◌&&◌, Bool, false, List, [], ◌∷◌, ◌++◌, append-nil,
  append_assoc, arith, Bytes, same, same_iff, length, if◌then◌else◌, Bool-cases,
}
use obsidian.RateLimit.{normalize_ip, Config, Backend, RateLimiter, new_rate_limiter}
use obsidian.RateLimit.Endpoint.{get_endpoint_config}
use obsidian.RateLimit.Visitors.{find, allow_local, cleanup, allowed, refused}
use obsidian.RateLimit.Api.{allow_endpoint, Op, request, tick, ban, step}
use obsidian.RateLimit.Refine.{allow_local-Visited, find-cleanup, find-shards}
use obsidian.RateLimit.Traffic.{
  Traffic, passed, Guards, allow_endpoint-cases, allow_endpoint-Guards, cleanup-Guards,
  new_rate_limiter-Guards, find-new_rate_limiter,
}
use obsidian.RateLimit.Window.{in_window, held, Tracks, Tracks-visit, Tracks-tidy, Tracks-later}

Tracks-nothing : (limit : ℕ) → Tracks limit 0 [] []
unfolding in_window
Tracks-nothing limit = record { past = tt; bounded = λ v. omega arith; agrees = λ v x. refl }

module _ (hash : Bytes → ℕ) {S : Type 0} (b : Backend S) (cfg : Config) (ip : Bytes) (limit : ℕ)
    (small : (endpoint : Bytes) → (get_endpoint_config cfg endpoint).requests_per_minute ≤ limit)
    (one : 1 ≤ limit) where
  -- The record of the address `ip` after a call that answered `out`.
  abbrev Follows : ℕ → List ℕ → Bytes → RateLimiter S × Bool → Type 0
  Follows now acc j out =
      Tracks limit now (if same j ip && out.1 then acc ++ now ∷ [] else acc)
        (held (find hash out.0 ip))

  unchanged-Follows :
      (rl : RateLimiter S) (t now : ℕ) (acc : List ℕ) (j : Bytes) (out : RateLimiter S × Bool)
      → out.0.shards ≡ rl.shards
      → (same j ip && out.1) ≡ false
      → t ≤ now
      → Tracks limit t acc (held (find hash rl ip))
      → Follows now acc j out
  unchanged-Follows rl t now acc j out e n h k =
      rw (n, find-shards hash rl out.0 ip e) (Tracks-later limit t now acc _ h k)

  local-Follows :
      (rl : RateLimiter S) (t now : ℕ) (acc : List ℕ) (j endpoint : Bytes)
      → Guards hash b cfg ip rl
      → t ≤ now
      → Tracks limit t acc (held (find hash rl ip))
      → Follows now acc j (allow_local hash rl j endpoint now)
  local-Follows rl t now acc j endpoint g h k =
      let w = allow_local-Visited hash rl j endpoint now g.valid in
      elim (Bool-cases (same j ip)) [
        | inr other ↦ rw (other, w.found ip) (rw other (Tracks-later limit t now acc _ h k))
        | inl e ↦
            let own : j ≡ ip = (same_iff j ip).0 e in
            rw (e, w.found ip, w.answered)
              (rw (e, own)
                (Tracks-visit limit t now acc (get_endpoint_config rl.config endpoint)
                  (find hash rl ip) (rw g.configured (small endpoint)) one h k))
      ]

  request-Follows :
      (rl : RateLimiter S) (t now : ℕ) (acc : List ℕ) (j endpoint : Bytes)
      → Guards hash b cfg ip rl
      → t ≤ now
      → Tracks limit t acc (held (find hash rl ip))
      → Follows now acc j (allow_endpoint hash b rl j endpoint now)
  request-Follows rl t now acc j endpoint g h k =
      elim (allow_endpoint-cases hash b rl j endpoint now g.no_backend) [
        | inl (e, trusted) ↦ rw e (
            unchanged-Follows rl t now acc j (allowed rl) refl
              (ground (arith, same_iff j ip, g.not_trusted, g.not_trusted_normalized)) h k)
        | inr (inl e) ↦ rw e (unchanged-Follows rl t now acc j (refused rl) refl (ground arith) h k)
        | inr (inr e) ↦ rw e (local-Follows rl t now acc j endpoint g h k)
      ]

  cleanup-Follows :
      (rl : RateLimiter S) (t now : ℕ) (acc : List ℕ)
      → Guards hash b cfg ip rl
      → t ≤ now
      → Tracks limit t acc (held (find hash rl ip))
      → Tracks limit now acc (held (find hash (cleanup rl now) ip))
  cleanup-Follows rl t now acc g h k =
      rw (find-cleanup hash rl now ip g.valid) (Tracks-tidy limit t now acc (find hash rl ip) h k)

  passed_bound :
      (ops : List (Op S)) (rl : RateLimiter S) (t : ℕ) (acc : List ℕ)
      → Traffic t ops
      → Guards hash b cfg ip rl
      → Tracks limit t acc (held (find hash rl ip))
      → (u : ℕ) → length (in_window u (acc ++ passed hash b ip ops rl)) ≤ limit
  unfolding passed step
  passed_bound [] rl t acc h g k u = rw append-nil (k.bounded u)
  passed_bound (tick now ∷ ops) rl t acc h g k u =
      passed_bound ops _ now acc h.1 (cleanup-Guards hash b cfg ip rl now g)
        (cleanup-Follows rl t now acc g h.0 k) u
  passed_bound (request j endpoint now ∷ ops) rl t acc h g k u =
      let out = allow_endpoint hash b rl j endpoint now in
      let later = passed hash b ip ops out.0 in
      let next = allow_endpoint-Guards hash b cfg ip rl j endpoint now g in
      let follows = request-Follows rl t now acc j endpoint g h.0 k in
      elim (Bool-cases (same j ip && out.1)) [
        | inl e ↦
            rw (e, ← append_assoc acc (now ∷ []) later)
              (passed_bound ops out.0 now (acc ++ now ∷ []) h.1 next (rw e at follows) u)
        | inr e ↦ rw e (passed_bound ops out.0 now acc h.1 next (rw e at follows) u)
      ]
  passed_bound (ban j ∷ ops) rl t acc h g k u = absurd h
  passed_bound (_ ∷ ops) rl t acc h g k u = absurd h

-- Take a new limiter without a Redis backend, any requests of any addresses and endpoints with
-- clean-ups in between, at times that do not fall, and an address that, as it stands and
-- normalised, is not on the configured whitelist. If no endpoint admits more than `limit` requests
-- a minute, then in every window of one minute at most `limit` requests of that address pass.
-- (`limit` is at least 1: the limiter lets the first request of an unknown address pass unchecked.)
pub passed-in_window :
    (hash : Bytes → ℕ) {S : Type 0} (b : Backend S) (cfg : Config) (ip : Bytes) (limit : ℕ)
    (ops : List (Op S)) (u : ℕ)
    → ((endpoint : Bytes) → (get_endpoint_config cfg endpoint).requests_per_minute ≤ limit)
    → 1 ≤ limit
    → All (λ w. w ≢ ip) cfg.whitelist
    → All (λ w. w ≢ normalize_ip ip) cfg.whitelist
    → Traffic 0 ops
    → length (in_window u (passed hash b ip ops (new_rate_limiter S cfg))) ≤ limit
passed-in_window hash {S} b cfg ip limit ops u small one w w' h =
    passed_bound hash b cfg ip limit small one ops (new_rate_limiter S cfg) 0 [] h
      (new_rate_limiter-Guards hash b cfg ip w w')
      (rw (find-new_rate_limiter hash S cfg ip) (Tracks-nothing limit)) u
