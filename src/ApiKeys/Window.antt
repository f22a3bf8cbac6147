-- ===== src/ApiKeys/Window.antt =====
-- The rate limit of one API key: `checkRateLimit` of internal/app/apikeys/apikeys.go over the
-- requests of one minute.
use obsidian.Common.Map.{lookup, insert, lookup-insert}
use obsidian.Common.{
  ℕ, suc, ◌+◌, ◌-◌, ◌≤◌, ◌<◌, ◌≡◌, inl, inr, true, false, List, [], ◌∷◌, some, arith, Bytes,
  same_refl, leb, length, if◌then◌else◌, Bool-cases, Option-cases, All,
}
use obsidian.ApiKeys.{minute, KeyUsage, Manager, check_rate_limit}

-- The requests of one key, in order: how many of them pass.
unfoldable pub accepted : {S : Type 0} → Manager S → Bytes → ℕ → List ℕ → ℕ
accepted m key_hash limit [] = 0
accepted m key_hash limit (now ∷ times) =
    let (m', pass) = check_rate_limit m key_hash limit now in
    let rest = accepted m' key_hash limit times in if pass then suc rest else rest

abbrev pub min : ℕ → ℕ → ℕ
min a b = if leb a b then a else b

module _ {S : Type 0} where
  check_rate_limit-in_window :
      (m : Manager S) (k : Bytes) (limit now : ℕ) (u : KeyUsage)
      → lookup k m.usage ≡ some u
      → now < u.window_start + minute
      → check_rate_limit m k limit now ≡ (
          if leb limit u.count
          then (m, false)
          else (record m { usage = insert k (record u { count = u.count + 1 }) m.usage }, true))
  unfolding check_rate_limit
  check_rate_limit-in_window m k limit now u e h = ground (arith, e)

  accepted_in_window :
      (m : Manager S) (k : Bytes) (limit : ℕ) (times : List ℕ) (u : KeyUsage)
      → lookup k m.usage ≡ some u
      → All (λ t. t < u.window_start + minute) times
      → accepted m k limit times ≡ min (length times) (limit - u.count)
  unfolding accepted
  accepted_in_window m k limit [] u e h = ground arith
  accepted_in_window m k limit (now ∷ times) u e h = elim (Bool-cases (leb limit u.count)) [
    | inl full ↦
        let step = check_rate_limit-in_window m k limit now u e h.0 in
        let rest = accepted_in_window m k limit times u e h.1 in ground (arith, full, step, rest)
    | inr free ↦
        let u' : KeyUsage = record u { count = u.count + 1 } in
        let m' : Manager S = record m { usage = insert k u' m.usage } in
        let step : check_rate_limit m k limit now ≡ (m', true) =
          ground (arith, free, check_rate_limit-in_window m k limit now u e h.0) in
        let found : lookup k m'.usage ≡ some u' =
          ground (arith, lookup-insert k k u' m.usage, same_refl k) in
        let rest = accepted_in_window m' k limit times u' found h.1 in
        rw step (ground (arith, free, rest))
  ]

  check_rate_limit-fresh :
      (m : Manager S) (k : Bytes) (limit now : ℕ)
      → ((u : KeyUsage) → lookup k m.usage ≡ some u → u.window_start + minute ≤ now)
      → check_rate_limit m k limit now
        ≡ (record m { usage = insert k (record { count = 1; window_start = now }) m.usage }, true)
  unfolding check_rate_limit
  check_rate_limit-fresh m k limit now h = elim (Option-cases (lookup k m.usage)) [
    | inl e ↦ ground (arith, e)
    | inr (u, e) ↦ ground (arith, e, h u e)
  ]

  -- Of the requests of one window, the first `limit` pass and the others are refused: a window
  -- starts at a request for which no earlier window is still open, and lasts a minute.
  pub accepted_window :
      (m : Manager S) (k : Bytes) (limit now : ℕ) (times : List ℕ)
      → 0 < limit
      → ((u : KeyUsage) → lookup k m.usage ≡ some u → u.window_start + minute ≤ now)
      → All (λ t. t < now + minute) times
      → accepted m k limit (now ∷ times) ≡ min (length (now ∷ times)) limit
  unfolding accepted
  accepted_window m k limit now times h closed inside =
      let u : KeyUsage = record { count = 1; window_start = now } in
      let m' : Manager S = record m { usage = insert k u m.usage } in
      let found : lookup k m'.usage ≡ some u =
        ground (arith, lookup-insert k k u m.usage, same_refl k) in
      let rest = accepted_in_window m' k limit times u found inside in
      rw (check_rate_limit-fresh m k limit now closed) (ground (arith, rest))
