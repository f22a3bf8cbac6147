-- ===== src/Gate.antt =====
-- The guards of the management API in cmd/obsidian/main.go: who a request comes from, and which
-- requests reach a handler. `JwtLib` stands for the HMAC, base64 and JSON of the standard library.
-- Times of tokens are in seconds. The effect of `next` is left to the handler: a guard's outcome
-- is the identity that it passes on, or the status that it answers.
pub mod Keys
pub mod Token
pub mod Routes
pub mod Allow
mod Tests
use obsidian.ApiKeys.{Scope, scope_admin}
use obsidian.RateLimit.{second}
use obsidian.Common.{
  ◌+◌, ◌/◌, ℕ, Bool, true, false, ◌&&◌, ◌||◌, List, [], ◌∷◌, ◌++◌, Option, none, some, Bytes, codes,
  same, any, has_prefix, trim_prefix, to_lower, ltb, split_on, if◌then◌else◌,
}

pub record Request : Type 0 where
  pub path : Bytes
  pub remote_addr : Bytes
  pub forwarded_for : Bytes
  pub api_key : Bytes
  pub authorization : Bytes
  pub query_token : Bytes
  pub ip_bypass : Bytes

-- `Claims` of package auth, without `iat`, `iss` and `aud`, which no guard reads.
pub record Claims : Type 0 where
  pub user_id : ℕ
  pub username : Bytes
  pub role : Bytes
  pub exp : ℕ

-- The `UserClaims` of a context are the same data.
pub data Outcome : Type 0 where
  passed : Claims → Outcome
  refused : ℕ → Outcome

pub record JwtLib : Type 0 where
  -- `signHS256(data, secret)` under the secret of the process
  pub sign : Bytes → Bytes
  -- `base64.RawURLEncoding`
  pub encode : Bytes → Bytes
  pub decode : Bytes → Option Bytes
  -- `parseJSONClaims`
  pub parse_claims : Bytes → Option Claims
  -- `%d` of package fmt
  pub decimal : ℕ → Bytes

abbrev pub scope_write : Scope
scope_write = codes "write"

abbrev pub role_admin : Bytes
role_admin = codes "Admin"

abbrev pub role_analyst : Bytes
role_analyst = codes "Analyst"

abbrev pub role_viewer : Bytes
role_viewer = codes "Viewer"

-- `strings.EqualFold` on ASCII text.
abbrev pub equal_fold : Bytes → Bytes → Bool
equal_fold a b = same (to_lower a) (to_lower b)

unfoldable pub scope_to_role : List Scope → Bytes
scope_to_role scopes =
    if any (λ s. same s scope_admin) scopes
    then role_admin
    else if any (λ s. same s scope_write) scopes
    then role_analyst
    else role_viewer

-- Whether a role is enough for a required one: `allowed` of `rbacMiddleware`.
unfoldable pub role_allows : Bytes → Bytes → Bool
role_allows required role =
    if same required role_viewer
    then true
    else if same required role_analyst
    then equal_fold role role_admin || equal_fold role role_analyst
    else if same required role_admin
    then equal_fold role role_admin
    else false

-- `rbacMiddleware` behind a guard: its outcome is the guard's, or 403.
unfoldable pub rbac_middleware : Bytes → Outcome → Outcome
rbac_middleware required (refused status) = refused status
rbac_middleware required (passed claims) =
    if role_allows required claims.role then passed claims else refused 403

-- The header, or the token of the query as a header.
abbrev pub bearer_header : Request → Bytes
bearer_header r =
    if same r.authorization [] then codes "Bearer " ++ r.query_token else r.authorization

module _ (jwt : JwtLib) where
  -- The payload of `GenerateJWT`, with the quotes of its format.
  unfoldable pub payload_text : ℕ → Bytes → Bytes → ℕ → ℕ → Bytes
  payload_text user_id username role issued exp =
      codes "{\"user_id\":"
      ++ (jwt.decimal user_id
          ++ (codes ",\"username\":\""
              ++ (username
                  ++ (codes "\",\"role\":\""
                      ++ (role
                          ++ (codes "\",\"iat\":"
                              ++ (jwt.decimal issued
                                  ++ (codes ",\"exp\":"
                                      ++ (jwt.decimal exp
                                          ++ codes
                                              ",\"iss\":\"obsidian-waf\",\"aud\":\"obsidian-ui\"}")))))))))

  -- `GenerateJWT`, with the current time and the duration in nanoseconds.
  unfoldable pub generate_jwt : ℕ → Bytes → Bytes → ℕ → ℕ → Bytes
  generate_jwt user_id username role duration now =
      let header = jwt.encode (codes "{\"alg\":\"HS256\",\"typ\":\"JWT\"}") in
      let payload =
        jwt.encode
          (payload_text user_id username role (now / second) ((now + duration) / second)) in
      header ++ (b'.' ∷ (payload ++ (b'.' ∷ jwt.sign (header ++ (b'.' ∷ payload)))))

  -- `VerifyJWT` of internal/app/auth/password.go at `now`; `none` is one of its errors.
  unfoldable pub verify_parts : List Bytes → ℕ → Option Claims
  verify_parts (header ∷ payload ∷ signature ∷ []) now =
      if same signature (jwt.sign (header ++ (b'.' ∷ payload)))
      then elim (jwt.decode payload) [
        | none ↦ none
        | some text ↦ elim (jwt.parse_claims text) [
          | none ↦ none
          | some claims ↦ if ltb claims.exp now then none else some claims
        ]
      ]
      else none
  verify_parts _ now = none

  unfoldable pub verify_jwt : Bytes → ℕ → Option Claims
  verify_jwt token now = verify_parts (split_on b'.' token) now

  -- `authMiddleware`; the clock is read in VerifyJWT and again for the second test.
  unfoldable pub auth_middleware : Request → ℕ → ℕ → Outcome
  auth_middleware r verified_at now =
      if has_prefix (bearer_header r) (codes "Bearer ")
      then elim (verify_jwt (trim_prefix (bearer_header r) (codes "Bearer ")) verified_at) [
        | none ↦ refused 401
        | some claims ↦ if ltb claims.exp now then refused 401 else passed claims
      ]
      else refused 401
