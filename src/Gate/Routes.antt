-- ===== src/Gate/Routes.antt =====
-- Who reaches the handlers that main.go puts behind authOrAPIKeyMiddleware and rbacMiddleware.
use obsidian.ApiKeys.Validate.{Accepted, In, validate_key, validate_key-Accepted}
use obsidian.ApiKeys.{ApiKey, KeyStore, Manager, Scope, Error, Result, ok, err, scope_admin}
use obsidian.Common.{
  ℕ, ◌≤◌, ◌≡◌, ◌≢◌, ◌⊎◌, inl, inr, true, ◌++◌, [], ◌∷◌, List, Bytes, codes, any, same, to_lower,
  same_iff, refl, sym, ap, ◌∙◌, arith, Bool-cases,
}
use mathlib.Core.Path.{subst}
use obsidian.Gate.Keys.{auth_or_api_key_middleware, either_client_ip, key_claims}
use obsidian.Gate.Token.{Signed, auth_middleware-Signed}
use obsidian.Gate.{
  Claims, JwtLib, Outcome, Request, bearer_header, equal_fold, passed, rbac_middleware, refused,
  role_admin, role_allows, scope_write, scope_to_role,
}

-- The request carries a token of the process with the claims, that is in time.
abbrev pub ByToken : JwtLib → Request → ℕ → ℕ → Claims → Type 0
ByToken jwt r verified_at now claims =
    (token : Bytes) × (bearer_header r ≡ codes "Bearer " ++ token)
    × Signed jwt token claims
    × (verified_at ≤ claims.exp)
    × (now ≤ claims.exp)

any_admin-In :
    (scopes : List Scope) → any (λ s. same s scope_admin) scopes ≡ true → In scope_admin scopes
any_admin-In [] h = cc
any_admin-In (s ∷ scopes) h = elim (Bool-cases (same s scope_admin)) [
  | inl e ↦ inl ((same_iff s scope_admin).0 e)
  | inr e ↦ inr (any_admin-In scopes (ground (arith, h, e)))
]

In-any_admin :
    (scopes : List Scope) → In scope_admin scopes → any (λ s. same s scope_admin) scopes ≡ true
In-any_admin [] i = elim i [ ]
In-any_admin (s ∷ scopes) (inl e) = ground (arith, (same_iff s scope_admin).1 e)
In-any_admin (s ∷ scopes) (inr i) = ground (arith, In-any_admin scopes i)

-- A key acts as an administrator only if it has the scope `admin`.
scope_to_role-In :
    (scopes : List Scope)
    → equal_fold (scope_to_role scopes) role_admin ≡ true
    → In scope_admin scopes
unfolding scope_to_role same to_lower
scope_to_role-In scopes h = elim (Bool-cases (any (λ s. same s scope_admin) scopes)) [
  | inl e ↦ any_admin-In scopes e
  | inr e ↦ elim (Bool-cases (any (λ s. same s scope_write) scopes)) [
    | inl f ↦ absurd (ground (arith, e, f, h))
    | inr f ↦ absurd (ground (arith, e, f, h))
  ]
]

role_allows_admin : (role : Bytes) → role_allows role_admin role ≡ equal_fold role role_admin
unfolding role_allows same
role_allows_admin role = refl

rbac_middleware-passed :
    (required : Bytes) (o : Outcome) (claims : Claims)
    → rbac_middleware required o ≡ passed claims
    → (o ≡ passed claims) × (role_allows required claims.role ≡ true)
unfolding rbac_middleware
rbac_middleware-passed required (refused status) claims h = cc
rbac_middleware-passed required (passed c) claims h =
    elim (Bool-cases (role_allows required c.role)) [
      | inl e ↦
          let found : passed c ≡ passed claims = ground (arith, e, h) in
          (found, ground (arith, e, found))
      | inr e ↦ absurd (ground (arith, e, h))
    ]

Result-cases : {A : Type 0} → (x : Result A) → ((a : A) × (x ≡ ok a)) ⊎ ((e : Error) × (x ≡ err e))
Result-cases (ok a) = inl (a, refl)
Result-cases (err e) = inr (e, refl)

module _ (hash : Bytes → Bytes) {S : Type 0} (st : KeyStore S) (jwt : JwtLib) where
  -- The request carries a key that the manager accepts, and that was left as `used`.
  abbrev pub ByKey : Manager S → Scope → Request → ℕ → ℕ → ℕ → ApiKey → ApiKey → Type 0
  ByKey m required r expiry_at window_at used_at used key =
      (r.api_key ≢ [])
      × Accepted hash st m (hash r.api_key) required (either_client_ip r) expiry_at window_at
          used_at used key

  auth_or_api_key-passed :
      (m : Manager S) (required : Scope) (r : Request)
      (expiry_at window_at used_at verified_at now : ℕ) (claims : Claims)
      → (auth_or_api_key_middleware hash st jwt m required r expiry_at window_at used_at verified_at
          now).1
        ≡ passed claims
      → ((used : ApiKey) × (key : ApiKey) × ByKey m required r expiry_at window_at used_at used key
          × (claims ≡ key_claims used))
        ⊎ ByToken jwt r verified_at now claims
  unfolding auth_or_api_key_middleware
  auth_or_api_key-passed m required r expiry_at window_at used_at verified_at now claims h =
      elim (Bool-cases (same r.api_key [])) [
        | inl e ↦ inr (auth_middleware-Signed jwt r verified_at now claims (ground (arith, e, h)))
        | inr e ↦
            let validated =
              validate_key hash st m r.api_key required (either_client_ip r) expiry_at window_at
                used_at in
            elim (Result-cases (validated.1)) [
              | inr (f, v) ↦
                  inr
                    (auth_middleware-Signed jwt r verified_at now claims (ground (arith, e, v, h)))
              | inl (used, v) ↦
                  (let (key, a) =
                      validate_key-Accepted hash st m r.api_key required (either_client_ip r)
                        expiry_at window_at used_at used v in
                    inl (
                      used,
                      key,
                      ((λ n. ground (arith, (same_iff r.api_key []).1 n, e)), a),
                      ground (arith, e, v, h),
                    ))
            ]
      ]

  -- A request reaches a handler of an administrator behind both guards only with a key that the
  -- manager accepts and that has the scope `admin`, or with a token that the process has signed,
  -- that is in time and whose role is, but for case, Admin.
  pub rbac_middleware-auth_or_api_key_middleware :
      (m : Manager S) (required : Scope) (r : Request)
      (expiry_at window_at used_at verified_at now : ℕ) (claims : Claims)
      → rbac_middleware role_admin
          (auth_or_api_key_middleware hash st jwt m required r expiry_at window_at used_at
            verified_at now).1
        ≡ passed claims
      → ((used : ApiKey) × (key : ApiKey) × ByKey m required r expiry_at window_at used_at used key
          × In scope_admin key.scopes
          × (claims ≡ key_claims used))
        ⊎ (ByToken jwt r verified_at now claims × (equal_fold claims.role role_admin ≡ true))
  rbac_middleware-auth_or_api_key_middleware m required r expiry_at window_at used_at verified_at
        now claims h =
      let (o, allowed) = rbac_middleware-passed role_admin _ claims h in
      let is_admin = sym (role_allows_admin claims.role) ∙ allowed in
      elim (auth_or_api_key-passed m required r expiry_at window_at used_at verified_at now claims
        o) [
          | inr t ↦ inr (t, is_admin)
          | inl (used, key, b, c) ↦ inl (
            used,
            key,
            b,
            scope_to_role-In key.scopes (
                subst (λ scopes. equal_fold (scope_to_role scopes) role_admin ≡ true)
                  (ap (λ k. k.scopes) b.1.recorded)
                  (subst (λ c'. equal_fold (c'.role) role_admin ≡ true) c is_admin)),
            c,
          )
        ]

  -- On the routes of an administrator, a key that the manager accepts for the scope that the route asks
  -- of a key, but that has not the scope `admin`, is refused with 403.
  pub validate_key-rbac_middleware :
      (m : Manager S) (required : Scope) (r : Request)
      (expiry_at window_at used_at verified_at now : ℕ) (used : ApiKey)
      → r.api_key ≢ []
      → (In scope_admin used.scopes → ⊥)
      → (validate_key hash st m r.api_key required
          (either_client_ip r)
          expiry_at
          window_at
          used_at).1
        ≡ ok used
      → rbac_middleware role_admin
          (auth_or_api_key_middleware hash st jwt m required r expiry_at window_at used_at
            verified_at now).1
        ≡ refused 403
  unfolding rbac_middleware auth_or_api_key_middleware
  validate_key-rbac_middleware m required r expiry_at window_at used_at verified_at now used given
        lacks v =
      elim (Bool-cases (role_allows role_admin (scope_to_role used.scopes))) [
        | inl e ↦ absurd (lacks (scope_to_role-In used.scopes (sym (role_allows_admin _) ∙ e)))
        | inr e ↦ ground (arith, e, v, given, same_iff r.api_key [])
      ]
