-- ===== src/ApiKeys/Validate.antt =====
-- `ValidateKey` of internal/app/apikeys/apikeys.go, and what a key that it accepts satisfies. The
-- clock is read three times: for the expiry, in the rate limit, and as the time of use.
use obsidian.Common.Map.{lookup, insert}
use obsidian.Common.{
  ℕ, ◌≤◌, ◌≡◌, inl, inr, ◌⊎◌, true, false, not, ◌&&◌, ◌||◌, List, [], ◌∷◌, Option, none, some,
  arith, Bytes, same, same_iff, any, ltb, if◌then◌else◌, Bool-cases, Option-cases,
}
use obsidian.ApiKeys.{
  Scope, scope_admin, key_not_found, key_expired, key_disabled, insufficient_scope,
  rate_limit_exceeded, Result, ok, err, ApiKey, KeyStore, Manager, has_scope, is_expired,
  check_rate_limit,
}

module _ (hash : Bytes → Bytes) {S : Type 0} (st : KeyStore S) where
  -- The end of `ValidateKey`: the use is recorded in memory and in the store.
  unfoldable pub use_key : Manager S → Bytes → ApiKey → Bytes → ℕ → Manager S × Result ApiKey
  use_key m key_hash key client_ip used_at =
      let used = record key { last_used_at = some used_at; last_used_ip = client_ip } in
      let stored : Option S = elim m.store [
        | none ↦ none
        | some s ↦ some (st.update_key_usage s key_hash used_at client_ip).0
      ] in
      (record m { keys = insert key_hash used m.keys; store = stored }, ok used)

  unfoldable pub check_key :
      Manager S → Bytes → ApiKey → Scope → Bytes → ℕ → ℕ → ℕ → Manager S × Result ApiKey
  check_key m key_hash key required client_ip expiry_at window_at used_at =
      if not key.enabled
      then (m, err key_disabled)
      else if is_expired key.expires_at expiry_at
      then (m, err key_expired)
      else if not (same required []) && not (has_scope key required)
      then (m, err insufficient_scope)
      else if ltb 0 key.rate_limit
      then (let (m', pass) = check_rate_limit m key_hash key.rate_limit window_at in
          if pass then use_key m' key_hash key client_ip used_at else (m', err rate_limit_exceeded))
      else use_key m key_hash key client_ip used_at

  unfoldable pub validate_key :
      Manager S → Bytes → Scope → Bytes → ℕ → ℕ → ℕ → Manager S × Result ApiKey
  validate_key m plaintext required client_ip expiry_at window_at used_at =
      elim (lookup (hash plaintext) m.keys) [
        | none ↦ (m, err key_not_found)
        | some key ↦ check_key m (hash plaintext) key required client_ip expiry_at window_at used_at
      ]

abbrev pub In : Scope → List Scope → Type 0
In s [] = ⊥
In s (t ∷ ts) = (t ≡ s) ⊎ In s ts

-- The key's scopes cover the required one: none is required, or it or `admin` is among them.
abbrev pub Covers : List Scope → Scope → Type 0
Covers scopes required = (required ≡ []) ⊎ In required scopes ⊎ In scope_admin scopes

-- The key may be used at `now`.
pub record IsLive (key : ApiKey) (now : ℕ) : Type 0 where
  pub enabled : key.enabled ≡ true
  pub not_expired : (at : ℕ) → key.expires_at ≡ some at → now ≤ at

pub any-In :
    (required : Scope) (scopes : List Scope)
    → any (λ s. same s required || same s scope_admin) scopes ≡ true
    → In required scopes ⊎ In scope_admin scopes
any-In required [] h = cc
any-In required (s ∷ scopes) h = elim (Bool-cases (same s required)) [
  | inl e ↦ inl (inl ((same_iff s required).0 e))
  | inr e ↦ elim (Bool-cases (same s scope_admin)) [
    | inl f ↦ inr (inl ((same_iff s scope_admin).0 f))
    | inr f ↦ elim (any-In required scopes (ground (arith, h, e, f))) [
      | inl a ↦ inl (inr a)
      | inr a ↦ inr (inr a)
    ]
  ]
]

has_scope-Covers :
    (key : ApiKey) (required : Scope) → has_scope key required ≡ true → Covers key.scopes required
unfolding has_scope
has_scope-Covers key required h = inr (any-In required key.scopes h)

is_expired-not :
    (o : Option ℕ) (now : ℕ) → is_expired o now ≡ false → (at : ℕ) → o ≡ some at → now ≤ at
unfolding is_expired
is_expired-not none now h at e = cc
is_expired-not (some x) now h at e = ground arith

module _ (hash : Bytes → Bytes) {S : Type 0} (st : KeyStore S) where
  -- What an accepted call shows of the key that it found.
  pub record Accepted (m : Manager S) (key_hash : Bytes) (required : Scope) (client_ip : Bytes)
      (expiry_at window_at used_at : ℕ) (used key : ApiKey) : Type 0 where
    pub known : lookup key_hash m.keys ≡ some key
    pub live : IsLive key expiry_at
    pub covers : Covers key.scopes required
    pub in_rate :
        (key.rate_limit ≡ 0) ⊎ ((check_rate_limit m key_hash key.rate_limit window_at).1 ≡ true)
    pub recorded : used ≡ record key { last_used_at = some used_at; last_used_ip = client_ip }

  use_key-ok :
      (m : Manager S) (key_hash : Bytes) (key : ApiKey) (client_ip : Bytes) (used_at : ℕ)
      (used : ApiKey)
      → (use_key hash st m key_hash key client_ip used_at).1 ≡ ok used
      → used ≡ record key { last_used_at = some used_at; last_used_ip = client_ip }
  unfolding use_key
  use_key-ok m key_hash key client_ip used_at used h = cc

  -- Every test of `check_key` was passed.
  check_key-ok :
      (m : Manager S) (key_hash : Bytes) (key : ApiKey) (required : Scope) (client_ip : Bytes)
      (expiry_at window_at used_at : ℕ) (used : ApiKey)
      → (check_key hash st m key_hash key required client_ip expiry_at window_at used_at).1
        ≡ ok used
      → (key.enabled ≡ true)
        × (is_expired key.expires_at expiry_at ≡ false)
        × ((required ≡ []) ⊎ (has_scope key required ≡ true))
        × ((key.rate_limit ≡ 0) ⊎ ((check_rate_limit m key_hash key.rate_limit window_at).1 ≡ true))
        × (used ≡ record key { last_used_at = some used_at; last_used_ip = client_ip })
  unfolding check_key
  check_key-ok m key_hash key required client_ip expiry_at window_at used_at used h = ground (
    arith,
    same_iff required [],
    use_key-ok m key_hash key client_ip used_at used,
    use_key-ok (check_rate_limit m key_hash key.rate_limit window_at).0 key_hash key client_ip
        used_at used,
  )

  -- An accepted key is one that the manager knows under the hash of the given text; it is enabled,
  -- not expired, covers the required scope, has no rate limit or passes it, and is returned with
  -- this use recorded.
  pub validate_key-Accepted :
      (m : Manager S) (plaintext : Bytes) (required : Scope) (client_ip : Bytes)
      (expiry_at window_at used_at : ℕ) (used : ApiKey)
      → (validate_key hash st m plaintext required client_ip expiry_at window_at used_at).1
        ≡ ok used
      → (key : ApiKey) × Accepted m
          (hash plaintext)
          required
          client_ip
          expiry_at
          window_at
          used_at
          used
          key
  unfolding validate_key
  validate_key-Accepted m plaintext required client_ip expiry_at window_at used_at used h =
      elim (Option-cases (lookup (hash plaintext) m.keys)) [
        | inl e ↦ ground (arith, h, e)
        | inr (key, e) ↦
            let (on, alive, scope, rate, same_key) =
              check_key-ok m (hash plaintext) key required client_ip expiry_at window_at used_at
                used (ground (arith, h, e)) in
            (
              key,
              record {
                known = e;
                live = record {
                  enabled = on;
                  not_expired = is_expired-not key.expires_at expiry_at alive;
                };
                covers = elim scope [
                  | inl none_needed ↦ inl none_needed
                  | inr has ↦ has_scope-Covers key required has
                ];
                in_rate = rate;
                recorded = same_key;
              },
            )
      ]
