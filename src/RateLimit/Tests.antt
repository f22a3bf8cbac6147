-- ===== src/RateLimit/Tests.antt =====
-- Runs of the limiter on small inputs, and the theorems at concrete traffic.
use obsidian.Common.Map.{lookup, insert, sweep}
use obsidian.Common.{
  ◌*◌, ◌≤◌, ◌≡◌, ◌⊎◌, ◌≢◌, All, same_iff, Bool-cases, refl, inl, inr, true, false, List, [], ◌∷◌,
  some, arith, Bytes, codes, length, has_prefix, same,
}
use obsidian.RateLimit.{
  second, EndpointConfig, Config, Backend, RateLimiter, Visitor, new_rate_limiter, normalize_ip,
  recent,
}
use obsidian.RateLimit.Endpoint.{get_endpoint_config, get_endpoint_config_longest}
use obsidian.RateLimit.Visitors.{
  find, get_shard, put_shard, store, check_rate, check_visitor, allow_local, tidy, cleanup,
  sweep_shards,
}
use obsidian.RateLimit.Api.{allow_backend, allow_endpoint, Op, request, tick, step, run}
use obsidian.RateLimit.Window.{in_window}
use obsidian.RateLimit.Traffic.{Guards, passed}
use obsidian.RateLimit.Bound.{passed-in_window}
use obsidian.RateLimit.Shards.{IsValid}
use obsidian.RateLimit.Valid.{run-IsValid}
use obsidian.RateLimit.Refine.{visit, Visited}
use obsidian.RateLimit.Counters.{answers, run-counted}
use obsidian.RateLimit.Decided.{Unmoved, allow_endpoint-Visited, is_banned, is_trusted}

-- No backend: the type of its states is empty, so every operation is trivial.
abbrev pub offline : Backend (Unit {0})
offline = record {
  is_blacklisted = λ s ip. false;
  allow_endpoint = λ s ip endpoint now. (s, true);
  blacklist = λ s ip. s;
  whitelist = λ s ip. s;
  remove_from_blacklist = λ s ip. s;
  remove_from_whitelist = λ s ip. s;
  reset = λ s ip. s;
  unblock = λ s ip. s;
}

abbrev pub login : EndpointConfig
login = record { requests_per_minute = 1; burst_size = 2; block_duration = 90 * second }

abbrev pub small : Config
small = record {
  requests_per_minute = 2;
  burst_size = 3;
  block_duration = 60 * second;
  whitelist = codes "10.0.0.1" ∷ [];
  endpoint_limits = (codes "/api", login) ∷ [];
  cleanup_interval = 300 * second;
}

abbrev client : Bytes
client = codes "203.0.113.9"

abbrev traffic : List (Op (Unit {0}))
traffic =
    request client (codes "/a") (1 * second)
    ∷ request client (codes "/b") (2 * second)
    ∷ request client (codes "/c") (3 * second)
    ∷ tick (4 * second)
    ∷ request client (codes "/d") (70 * second)
    ∷ []

abbrev start : RateLimiter (Unit {0})
start = new_rate_limiter (Unit {0}) small

-- What a run of the limiter computes with.
engine : Unit {0}
unfolding run passed step allow_endpoint allow_backend allow_local check_visitor check_rate find
    store get_shard put_shard cleanup tidy recent new_rate_limiter normalize_ip get_endpoint_config
    lookup insert sweep sweep_shards same has_prefix visit
engine = tt

-- The third request goes over the rate, and the block lasts until second 63.
passed-traffic :
    passed length offline client traffic start ≡ 1 * second ∷ 2 * second ∷ 70 * second ∷ []
unfolding engine
passed-traffic = refl

limits_bound : (endpoint : Bytes) → (get_endpoint_config small endpoint).requests_per_minute ≤ 2
unfolding get_endpoint_config lookup same
limits_bound endpoint = ground arith

client_untrusted : All (λ w. w ≢ client) small.whitelist
client_untrusted = (cc, tt)

client_untrusted_normalized : All (λ w. w ≢ normalize_ip client) small.whitelist
unfolding normalize_ip same
client_untrusted_normalized = (cc, tt)

passed-in_window_example :
    length (in_window (60 * second) (passed length offline client traffic start)) ≤ 2
passed-in_window_example =
    passed-in_window length offline small client 2 traffic (60 * second) limits_bound (omega arith)
      client_untrusted client_untrusted_normalized (omega arith)

login_found : lookup (codes "/api") small.endpoint_limits ≡ some login
unfolding lookup same
login_found = refl

login_matches : has_prefix (codes "/api/login") (codes "/api") ≡ true
unfolding has_prefix
login_matches = refl

only_prefix :
    (q : Bytes) (d : EndpointConfig)
    → lookup q small.endpoint_limits ≡ some d
    → has_prefix (codes "/api/login") q ≡ true
    → length q ≤ length (codes "/api")
unfolding lookup
only_prefix q d found m = elim (Bool-cases (same (codes "/api") q)) [
  | inl e ↦ rw (← (same_iff (codes "/api") q).0 e) (omega arith)
  | inr e ↦ absurd (cc e)
]

get_endpoint_config_longest_example : get_endpoint_config small (codes "/api/login") ≡ login
get_endpoint_config_longest_example =
    get_endpoint_config_longest small (codes "/api/login") (codes "/api") login login_found
      login_matches only_prefix

-- The client after two requests, at second 2.
abbrev busy : RateLimiter (Unit {0})
busy =
    run length offline
      (request client (codes "/a") (1 * second) ∷ request client (codes "/b") (2 * second) ∷ [])
      start

abbrev busy_client : Visitor
busy_client = record { timestamps = 1 * second ∷ 2 * second ∷ []; blocked = false; block_until = 0 }

abbrev two_requests : List (Op (Unit {0}))
two_requests =
    request client (codes "/a") (1 * second) ∷ request client (codes "/b") (2 * second) ∷ []

run-IsValid_example : IsValid (run length offline traffic (new_rate_limiter (Unit {0}) small))
run-IsValid_example = run-IsValid length offline small traffic

run-counted_example :
    ((run length offline traffic start).total_allowed ≡ answers length offline true traffic start)
    × ((run length offline traffic start).total_blocked
        ≡ answers length offline false traffic start)
run-counted_example = run-counted length offline small traffic

-- Three requests pass and one is refused.
three_passed : answers length offline true traffic start ≡ 3
unfolding engine
three_passed = refl

busy-Guards : Guards length offline small client busy
unfolding engine
busy-Guards = record {
  valid = run-IsValid length offline small two_requests;
  no_backend = refl;
  configured = refl;
  not_trusted = refl;
  not_trusted_normalized = refl;
}

abbrev after_block : List (Op (Unit {0}))
after_block =
    request client (codes "/d") (40 * second)
    ∷ tick (50 * second)
    ∷ request client [] (63 * second)
    ∷ []

allow_endpoint-Visited_example :
    ((is_trusted busy client ≡ true)
      × Unmoved length busy true
          (allow_endpoint length offline busy client (codes "/c") (3 * second)))
    ⊎ (((is_trusted busy client ≡ false)
          × (is_banned busy client ≡ true)
          × Unmoved length busy false
              (allow_endpoint length offline busy client (codes "/c") (3 * second)))
        ⊎ ((is_trusted busy client ≡ false)
            × (is_banned busy client ≡ false)
            × Visited length busy
                (get_endpoint_config busy.config (codes "/c"))
                client
                (3 * second)
                (allow_endpoint length offline busy client (codes "/c") (3 * second))))
allow_endpoint-Visited_example =
    allow_endpoint-Visited length offline busy client (codes "/c") (3 * second) busy-Guards.valid
      busy-Guards.no_backend

client_normalized : normalize_ip client ≡ client
unfolding engine
client_normalized = refl

local_normalized : normalize_ip (codes "[::1]") ≡ codes "127.0.0.1"
unfolding engine
local_normalized = refl

busy_admits : 1 ≤ (get_endpoint_config busy.config []).requests_per_minute
unfolding engine
busy_admits = omega arith
