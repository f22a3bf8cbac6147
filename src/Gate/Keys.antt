-- ===== src/Gate/Keys.antt =====
-- `apiKeyMiddleware` and `authOrAPIKeyMiddleware` of cmd/obsidian/main.go. The three times of a key
-- are those of `ValidateKey`, the two of a token those of `authMiddleware`.
use obsidian.ApiKeys.Validate.{validate_key}
use obsidian.ApiKeys.{
  ApiKey, Error, KeyStore, Manager, Scope, err, insufficient_scope, key_disabled, key_expired,
  key_not_found, ok, rate_limit_exceeded,
}
use obsidian.Common.{ℕ, [], ◌++◌, none, some, Bytes, codes, same, trim_space, if◌then◌else◌}
use obsidian.Gate.{Claims, JwtLib, Outcome, Request, auth_middleware, passed, scope_to_role}
use obsidian.RateLimit.Http.{before_comma}
use obsidian.Security.{split_host_port}

-- The address that `apiKeyMiddleware` records for a key.
unfoldable pub key_client_ip : Request → Bytes
key_client_ip r =
    if same r.forwarded_for []
    then elim (split_host_port r.remote_addr) [ none ↦ r.remote_addr | some host ↦ host ]
    else trim_space (before_comma r.forwarded_for)

-- The address that `authOrAPIKeyMiddleware` records for a key.
unfoldable pub either_client_ip : Request → Bytes
either_client_ip r = if same r.forwarded_for [] then r.remote_addr else before_comma r.forwarded_for

unfoldable pub key_status : Error → ℕ
key_status key_not_found = 401
key_status key_expired = 401
key_status key_disabled = 403
key_status insufficient_scope = 403
key_status rate_limit_exceeded = 429
key_status _ = 401

-- The pseudo user of a key.
abbrev pub key_claims : ApiKey → Claims
key_claims key = record {
  user_id = 0;
  username = codes "api:" ++ key.name;
  role = scope_to_role key.scopes;
  exp = 0;
}

-- What `apiKeyMiddleware` hands on: the key, or the status that it answers.
pub data KeyOutcome : Type 0 where
  key_passed : ApiKey → KeyOutcome
  key_refused : ℕ → KeyOutcome

module _ (hash : Bytes → Bytes) {S : Type 0} (st : KeyStore S) where
  unfoldable pub api_key_middleware :
      Manager S → Scope → Request → ℕ → ℕ → ℕ → Manager S × KeyOutcome
  api_key_middleware m required r expiry_at window_at used_at =
      if same r.api_key []
      then (m, key_refused 401)
      else (let (m', result) =
            validate_key hash st m r.api_key required (key_client_ip r) expiry_at window_at
              used_at in
          elim result [ ok key ↦ (m', key_passed key) | err e ↦ (m', key_refused (key_status e)) ])

  unfoldable pub auth_or_api_key_middleware :
      JwtLib → Manager S → Scope → Request → ℕ → ℕ → ℕ → ℕ → ℕ → Manager S × Outcome
  auth_or_api_key_middleware jwt m required r expiry_at window_at used_at verified_at now =
      if same r.api_key []
      then (m, auth_middleware jwt r verified_at now)
      else (let (m', result) =
            validate_key hash st m r.api_key required (either_client_ip r) expiry_at window_at
              used_at in
          elim result [
            | ok key ↦ (m', passed (key_claims key))
            | err e ↦ (m', auth_middleware jwt r verified_at now)
          ])
