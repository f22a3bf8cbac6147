-- ===== src/RateLimit/Http.antt =====
-- `Middleware` and `extractIP` of internal/app/ratelimit/ratelimit.go, over the parts of a request
-- that they read. A response is the headers that the middleware sets and the handler that answers.
use obsidian.Common.Map.{lookup}
use obsidian.Common.{
  ℕ, ◌+◌, ◌/◌, ◌*◌, ◌≡◌, ◌≢◌, refl, ap, ◌∙◌, inl, inr, ◌⊎◌, true, not, List, [], ◌∷◌, ◌++◌, Option,
  none, some, arith, Bytes, codes, All, All-append, ◌==◌, same, if◌then◌else◌, append_assoc,
}
use mathlib.Core.List.{reverse, reverse-append, reverse-reverse}
use obsidian.RateLimit.{second, local_host_ip, Config, Backend, RateLimiter}
use obsidian.RateLimit.Endpoint.{get_endpoint_config}
use obsidian.RateLimit.Api.{allow_endpoint}

-- The headers are empty where the request has none.
pub record Request : Type 0 where
  pub forwarded_for : Bytes
  pub real_ip : Bytes
  pub remote_addr : Bytes
  pub path : Bytes

pub data Response : Type 0 where
  -- status 429 with Retry-After, X-RateLimit-Limit and X-RateLimit-Reset
  too_many_requests : ℕ → ℕ → ℕ → Response
  -- the next handler, with X-RateLimit-Limit
  next : ℕ → Response

-- The first entry of a chain of addresses.
unfoldable pub before_comma : Bytes → Bytes
before_comma [] = []
before_comma (c ∷ s) = if c == b',' then [] else c ∷ before_comma s

-- The loop from the end of the address, over the bytes in reverse: what stands before the last
-- colon, or nothing if a bracket or the start comes first.
unfoldable pub scan_back : Bytes → Option Bytes
scan_back [] = none
scan_back (c ∷ r) = if c == b':' then some (reverse r) else if c == b']' then none else scan_back r

unfoldable pub strip_port : Bytes → Bytes
unfolding scan_back
strip_port ip = elim (scan_back (reverse ip)) [ some host ↦ host | none ↦ ip ]

unfoldable pub extract_ip : Request → Bytes
unfolding before_comma strip_port same
extract_ip r =
    if not (same r.forwarded_for [])
    then before_comma r.forwarded_for
    else if not (same r.real_ip [])
    then r.real_ip
    else strip_port r.remote_addr

module _ (hash : Bytes → ℕ) {S : Type 0} (b : Backend S) where
  unfoldable pub middleware : RateLimiter S → Request → ℕ → RateLimiter S × Response
  middleware rl r now =
      let (rl', ok) = allow_endpoint hash b rl (extract_ip r) r.path now in
      let cfg = get_endpoint_config rl'.config r.path in
      if ok then (rl', next rl'.config.requests_per_minute) else (
        rl',
        too_many_requests (cfg.block_duration / second) cfg.requests_per_minute
            (now + cfg.block_duration),
      )

unfoldable pub default_config : Config
default_config = record {
  requests_per_minute = 200;
  burst_size = 300;
  block_duration = 60 * second;
  whitelist = local_host_ip ∷ codes "::1" ∷ codes "[::1]" ∷ codes "localhost" ∷ [];
  cleanup_interval = 300 * second;
  endpoint_limits =
      (
        codes "/api/login",
        record { requests_per_minute = 5; burst_size = 10; block_duration = 900 * second },
      )
      ∷ (
        codes "/api/admin",
        record { requests_per_minute = 30; burst_size = 50; block_duration = 300 * second },
      )
      ∷ [];
}

pub before_comma-append :
    (s rest : Bytes) → All (λ c. c ≢ b',') s → before_comma (s ++ b',' ∷ rest) ≡ s
unfolding before_comma
before_comma-append [] rest h = refl
before_comma-append (c ∷ s) rest h = ground (arith, before_comma-append s rest h.1)

before_comma_none : (s : Bytes) → All (λ c. c ≢ b',') s → before_comma s ≡ s
unfolding before_comma
before_comma_none [] h = refl
before_comma_none (c ∷ s) h = ground (arith, before_comma_none s h.1)

scan_back-append :
    (port r : Bytes)
    → All (λ c. (c ≢ b':') × (c ≢ b']')) port
    → scan_back (port ++ b':' ∷ r) ≡ some (reverse r)
unfolding scan_back
scan_back-append [] r h = refl
scan_back-append (c ∷ port) r h = ground (arith, scan_back-append port r h.1)

All-reverse {ℓ κ} : {A : Type ℓ} (P : A → Type κ) (xs : List A) → All P xs → All P (reverse xs)
All-reverse P [] h = tt
All-reverse P (x ∷ xs) h =
    rw (reverse-append (x ∷ []) xs)
      (All-append P (reverse xs) (x ∷ []) (All-reverse P xs h.1) (h.0, tt))

-- Without forwarding headers the client is the host of the remote address: of `host:port` with no
-- colon and no closing bracket in `port`, whatever the host is, the host.
pub extract_ip_remote :
    (r : Request) (host port : Bytes)
    → r.forwarded_for ≡ []
    → r.real_ip ≡ []
    → r.remote_addr ≡ host ++ b':' ∷ port
    → All (λ c. (c ≢ b':') × (c ≢ b']')) port
    → extract_ip r ≡ host
unfolding extract_ip
extract_ip_remote r host port f x e h =
    let turned : reverse r.remote_addr ≡ reverse port ++ b':' ∷ reverse host =
      ap reverse e
      ∙ reverse-append host (b':' ∷ port)
      ∙ ap (λ s. s ++ reverse host) (reverse-append (b':' ∷ []) port)
      ∙ append_assoc (reverse port) (b':' ∷ []) (reverse host) in
    let found : scan_back (reverse r.remote_addr) ≡ some host =
      ap scan_back turned
      ∙ scan_back-append (reverse port) (reverse host) (All-reverse _ port h)
      ∙ ap some (reverse-reverse host) in
    ground (arith, found, f, x)

-- A first entry of the chain, alone or before a comma.
abbrev pub Heads : Bytes → Bytes → Type 0
Heads ip chain = (chain ≡ ip) ⊎ ((rest : Bytes) × (chain ≡ ip ++ b',' ∷ rest))

extract_ip_forwarded :
    (r : Request) (ip : Bytes)
    → ip ≢ []
    → All (λ c. c ≢ b',') ip
    → Heads ip r.forwarded_for
    → extract_ip r ≡ ip
unfolding extract_ip
extract_ip_forwarded r [] ne plain h = absurd (ne refl)
extract_ip_forwarded r (c ∷ ip) ne plain (inl e) =
    ground (arith, before_comma_none (c ∷ ip) plain, e)
extract_ip_forwarded r (c ∷ ip) ne plain (inr (rest, e)) =
    ground (arith, before_comma-append (c ∷ ip) rest plain, e)

module _ (hash : Bytes → ℕ) {S : Type 0} (b : Backend S) where
  trusted_passes :
      (rl : RateLimiter S) (ip endpoint : Bytes) (now : ℕ)
      → lookup ip rl.whitelist ≡ some true
      → ((allow_endpoint hash b rl ip endpoint now).1 ≡ true)
        × ((allow_endpoint hash b rl ip endpoint now).0.config ≡ rl.config)
  unfolding allow_endpoint
  trusted_passes rl ip endpoint now h = ground arith

  -- A request whose X-Forwarded-For header begins with a whitelisted address passes, wherever it
  -- comes from: the middleware believes the header without a check of the remote address.
  pub middleware_forwarded :
      (rl : RateLimiter S) (r : Request) (ip : Bytes) (now : ℕ)
      → lookup ip rl.whitelist ≡ some true
      → ip ≢ []
      → All (λ c. c ≢ b',') ip
      → Heads ip r.forwarded_for
      → (middleware hash b rl r now).1 ≡ next rl.config.requests_per_minute
  unfolding middleware
  middleware_forwarded rl r ip now trusted ne plain h =
      ground (arith, extract_ip_forwarded r ip ne plain h, trusted_passes rl ip r.path now trusted)
