-- ===== src/RateLimit/Endpoint.antt =====
-- `getEndpointConfig` of internal/app/ratelimit/ratelimit.go.
use obsidian.Common.Map.{Map, lookup}
use obsidian.Common.{
  ◌≤◌, ◌≡◌, refl, sym, ◌∙◌, ◌⊎◌, inl, inr, true, false, List, [], ◌∷◌, Option, none, some, arith,
  Bytes, same, same_iff, has_prefix, has_prefix_unique, length, same_refl, ap, All, leb,
  if◌then◌else◌, Bool-cases,
}
use mathlib.Core.Bool.{false≢true}
use native.Mathlib.Nat.{le_refl, le_antisymm}
use obsidian.RateLimit.{EndpointConfig, Config}

-- The map's keys, as `getEndpointConfig` collects them.
pub prefixes : Map EndpointConfig → List Bytes
prefixes [] = []
prefixes ((p, c) ∷ m) = p ∷ prefixes m

insert_longest : Bytes → List Bytes → List Bytes
insert_longest p [] = p ∷ []
insert_longest p (q ∷ qs) =
    if leb (length q) (length p) then p ∷ q ∷ qs else q ∷ insert_longest p qs

-- `sort.Slice` by falling length.
pub sort_longest : List Bytes → List Bytes
unfolding insert_longest
sort_longest [] = []
sort_longest (p ∷ ps) = insert_longest p (sort_longest ps)

-- The first of the prefixes that the endpoint has, with its configuration.
pub first_match : Bytes → Map EndpointConfig → List Bytes → Option EndpointConfig
first_match endpoint limits [] = none
first_match endpoint limits (p ∷ ps) =
    if has_prefix endpoint p then lookup p limits else first_match endpoint limits ps

unfoldable pub get_endpoint_config : Config → Bytes → EndpointConfig
unfolding first_match sort_longest prefixes
get_endpoint_config cfg endpoint =
    elim (first_match endpoint cfg.endpoint_limits (sort_longest (prefixes cfg.endpoint_limits))) [
      | some c ↦ c
      | none ↦ record {
        requests_per_minute = cfg.requests_per_minute;
        burst_size = cfg.burst_size;
        block_duration = cfg.block_duration;
      }
    ]

abbrev pub In : Bytes → List Bytes → Type 0
In p [] = ⊥
In p (q ∷ qs) = (p ≡ q) ⊎ In p qs

abbrev NoLonger : Bytes → List Bytes → Type 0
NoLonger p = All (λ q. length q ≤ length p)

-- Each prefix is at least as long as those behind it.
abbrev Falling : List Bytes → Type 0
Falling [] = Unit
Falling (p ∷ ps) = NoLonger p ps × Falling ps

module _ {κ} (P : Bytes → Type κ) where
  All-insert_longest : (p : Bytes) (qs : List Bytes) → P p → All P qs → All P (insert_longest p qs)
  unfolding insert_longest
  All-insert_longest p [] hp h = (hp, tt)
  All-insert_longest p (q ∷ qs) hp h = elim (Bool-cases (leb (length q) (length p))) [
    | inl e ↦ rw e (hp, h)
    | inr e ↦ rw e (h.0, All-insert_longest p qs hp h.1)
  ]

  All-sort_longest : (ps : List Bytes) → All P ps → All P (sort_longest ps)
  unfolding sort_longest
  All-sort_longest [] h = tt
  All-sort_longest (p ∷ ps) h = All-insert_longest p (sort_longest ps) h.0 (All-sort_longest ps h.1)

NoLonger-trans :
    (p q : Bytes) (ps : List Bytes) → length p ≤ length q → NoLonger p ps → NoLonger q ps
NoLonger-trans p q [] e h = tt
NoLonger-trans p q (r ∷ ps) e h = (omega arith, NoLonger-trans p q ps e h.1)

insert_longest-Falling : (p : Bytes) (qs : List Bytes) → Falling qs → Falling (insert_longest p qs)
unfolding insert_longest
insert_longest-Falling p [] h = (tt, tt)
insert_longest-Falling p (q ∷ qs) h = elim (Bool-cases (leb (length q) (length p))) [
  | inl e ↦ rw e ((ground arith, NoLonger-trans q p qs (ground arith) h.0), h)
  | inr e ↦ rw e (
    All-insert_longest (λ r. length r ≤ length q) p qs (ground arith) h.0,
    insert_longest-Falling p qs h.1,
  )
]

sort_longest-Falling : (ps : List Bytes) → Falling (sort_longest ps)
unfolding sort_longest
sort_longest-Falling [] = tt
sort_longest-Falling (p ∷ ps) = insert_longest-Falling p (sort_longest ps) (sort_longest-Falling ps)

In-insert_longest_self : (p : Bytes) (qs : List Bytes) → In p (insert_longest p qs)
unfolding insert_longest
In-insert_longest_self p [] = inl refl
In-insert_longest_self p (q ∷ qs) = elim (Bool-cases (leb (length q) (length p))) [
  | inl e ↦ rw e (inl refl)
  | inr e ↦ rw e (inr (In-insert_longest_self p qs))
]

In-insert_longest : (p q : Bytes) (qs : List Bytes) → In q qs → In q (insert_longest p qs)
unfolding insert_longest
In-insert_longest p q [] h = absurd h
In-insert_longest p q (r ∷ qs) h = elim (Bool-cases (leb (length r) (length p))) [
  | inl e ↦ rw e (inr h)
  | inr e ↦ rw e (elim h [ inl e ↦ inl e | inr later ↦ inr (In-insert_longest p q qs later) ])
]

In-sort_longest : (p : Bytes) (ps : List Bytes) → In p ps → In p (sort_longest ps)
unfolding sort_longest
In-sort_longest p [] h = h
In-sort_longest p (q ∷ ps) (inl e) = rw e (In-insert_longest_self q (sort_longest ps))
In-sort_longest p (q ∷ ps) (inr h) =
    In-insert_longest q p (sort_longest ps) (In-sort_longest p ps h)

In-prefixes :
    (p : Bytes) (m : Map EndpointConfig) {c : EndpointConfig}
    → lookup p m ≡ some c
    → In p (prefixes m)
unfolding lookup prefixes
In-prefixes p [] h = cc
In-prefixes p ((q, d) ∷ m) h = elim (Bool-cases (same q p)) [
  | inl e ↦ inl (sym ((same_iff q p).0 e))
  | inr e ↦ inr (In-prefixes p m (rw e at h))
]

All-prefixes {κ} :
    (P : Bytes → Type κ) (m : Map EndpointConfig)
    → ((q : Bytes) (d : EndpointConfig) → lookup q m ≡ some d → P q)
    → All P (prefixes m)
unfolding prefixes lookup
All-prefixes P [] h = tt
All-prefixes P ((q, d) ∷ m) h = (
  h q d (rw (same_refl q)),
  All-prefixes P m (λ r e found. elim (Bool-cases (same q r)) [
    | inl s ↦ h r d (rw s)
    | inr s ↦ h r e (rw s found)
  ]),
)

-- A prefix that is absent from the list, or not a prefix, does not count.
first_match_longest :
    (endpoint p : Bytes) (limits : Map EndpointConfig) (ps : List Bytes)
    → Falling ps
    → In p ps
    → has_prefix endpoint p ≡ true
    → All (λ q. has_prefix endpoint q ≡ true → length q ≤ length p) ps
    → first_match endpoint limits ps ≡ lookup p limits
unfolding first_match
first_match_longest endpoint p limits [] f h m a = absurd h
first_match_longest endpoint p limits (q ∷ ps) f h m a = elim (Bool-cases (has_prefix endpoint q)) [
  | inl e ↦ rw e (
      ap (λ r. lookup r limits)
        (has_prefix_unique endpoint q p e m (le_antisymm (a.0 e) (shorter h))))
  | inr e ↦ rw e (first_match_longest endpoint p limits ps f.1 (later e h) m a.1)
]
  where
    shorter_in : (rs : List Bytes) → NoLonger q rs → In p rs → length p ≤ length q
    shorter_in [] n i = absurd i
    shorter_in (r ∷ rs) n (inl e) = rw e n.0
    shorter_in (r ∷ rs) n (inr i) = shorter_in rs n.1 i

    shorter : In p (q ∷ ps) → length p ≤ length q
    shorter (inl e) = rw e (le_refl _)
    shorter (inr i) = shorter_in ps f.0 i

    later : has_prefix endpoint q ≡ false → In p (q ∷ ps) → In p ps
    later e (inl s) = absurd (false≢true (sym e ∙ ap (has_prefix endpoint) (sym s) ∙ m))
    later e (inr i) = i

-- An endpoint is limited by the configuration of its longest configured prefix: `p` is a key of
-- the map and a prefix of the endpoint, and no other key that is a prefix is longer.
pub get_endpoint_config_longest :
    (cfg : Config) (endpoint p : Bytes) (c : EndpointConfig)
    → lookup p cfg.endpoint_limits ≡ some c
    → has_prefix endpoint p ≡ true
    → ((q : Bytes) (d : EndpointConfig)
        → lookup q cfg.endpoint_limits ≡ some d
        → has_prefix endpoint q ≡ true
        → length q ≤ length p)
    → get_endpoint_config cfg endpoint ≡ c
unfolding get_endpoint_config
get_endpoint_config_longest cfg endpoint p c found m longest =
    let limits = cfg.endpoint_limits in
    let matched =
      first_match_longest endpoint p limits (sort_longest (prefixes limits))
        (sort_longest-Falling (prefixes limits))
        (In-sort_longest p (prefixes limits) (In-prefixes p limits found)) m
        (All-sort_longest _ (prefixes limits) (All-prefixes _ limits longest)) in
    rw (matched ∙ found, get_endpoint_config)

first_match-none :
    (endpoint : Bytes) (limits : Map EndpointConfig) (ps : List Bytes)
    → All (λ q. has_prefix endpoint q ≡ false) ps
    → first_match endpoint limits ps ≡ none
unfolding first_match
first_match-none endpoint limits [] h = refl
first_match-none endpoint limits (q ∷ ps) h = rw h.0 (first_match-none endpoint limits ps h.1)

-- An endpoint that has no configured prefix is limited by the global configuration.
pub get_endpoint_config_global :
    (cfg : Config) (endpoint : Bytes)
    → ((q : Bytes) (d : EndpointConfig)
        → lookup q cfg.endpoint_limits ≡ some d
        → has_prefix endpoint q ≡ false)
    → get_endpoint_config cfg endpoint ≡ record {
      requests_per_minute = cfg.requests_per_minute;
      burst_size = cfg.burst_size;
      block_duration = cfg.block_duration;
    }
unfolding get_endpoint_config
get_endpoint_config_global cfg endpoint h =
    let limits = cfg.endpoint_limits in
    rw (
      first_match-none endpoint limits (sort_longest (prefixes limits))
          (All-sort_longest _ (prefixes limits) (All-prefixes _ limits h)),
      get_endpoint_config,
    )
