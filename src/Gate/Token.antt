-- ===== src/Gate/Token.antt =====
-- The tokens of internal/app/auth/password.go: what VerifyJWT accepts, and that it accepts what
-- GenerateJWT makes.
use obsidian.Common.{
  ℕ, ◌+◌, ◌/◌, ◌≤◌, ◌≡◌, ◌≢◌, refl, sym, ap, ◌∙◌, inl, inr, List, [], ◌∷◌, ◌++◌, some, arith, Bytes,
  codes, same, same_iff, same_refl, has_prefix, join, split_on, join-split_on, split_on-append,
  split_on_single, trim_prefix, trim_prefix-append, All, Bool-cases, Option-cases,
}
use mathlib.Core.Path.{subst}
use obsidian.RateLimit.{second}
use obsidian.Gate.{
  Claims, JwtLib, Request, passed, payload_text, generate_jwt, verify_parts, verify_jwt,
  bearer_header, auth_middleware,
}

-- A token with the claims, under the signature of the process.
pub record Signed (jwt : JwtLib) (token : Bytes) (claims : Claims) : Type 0 where
  pub header : Bytes
  pub payload : Bytes
  pub text : Bytes
  pub parts : token ≡ header ++ (b'.' ∷ (payload ++ (b'.' ∷ jwt.sign (header ++ (b'.' ∷ payload)))))
  pub decoded : jwt.decode payload ≡ some text
  pub parsed : jwt.parse_claims text ≡ some claims

-- What the libraries of base64 and JSON promise of the tokens of the program: no text has a dot
-- in its encoding or in its signature, and decoding returns the text.
pub record Faithful (jwt : JwtLib) : Type 0 where
  pub encode_no_dot : (s : Bytes) → All (λ c. c ≢ b'.') (jwt.encode s)
  pub sign_no_dot : (s : Bytes) → All (λ c. c ≢ b'.') (jwt.sign s)
  pub decode-encode : (s : Bytes) → jwt.decode (jwt.encode s) ≡ some s

split_on_three :
    (a b c : Bytes)
    → All (λ x. x ≢ b'.') a
    → All (λ x. x ≢ b'.') b
    → All (λ x. x ≢ b'.') c
    → split_on b'.' (a ++ (b'.' ∷ (b ++ (b'.' ∷ c)))) ≡ a ∷ b ∷ c ∷ []
split_on_three a b c ha hb hc =
    split_on-append b'.' a _ ha
    ∙ ap (◌∷◌ a) (split_on-append b'.' b _ hb ∙ ap (◌∷◌ b) (split_on_single b'.' c hc))

-- The text of a JSON object with members that are numbers and plain texts.
pub data Value : Type 0 where
  number : ℕ → Value
  plain : Bytes → Value

abbrev pub value_before : JwtLib → Value → Bytes → Bytes
value_before jwt (number n) rest = jwt.decimal n ++ rest
value_before jwt (plain s) rest = b'"' ∷ (s ++ b'"' ∷ rest)

abbrev pub members : JwtLib → List (Bytes × Value) → Bytes
members jwt [] = codes "}"
members jwt ((name, v) ∷ []) = b'"' ∷ (name ++ b'"' ∷ b':' ∷ value_before jwt v (codes "}"))
members jwt ((name, v) ∷ m ∷ ms) =
    b'"' ∷ (name ++ b'"' ∷ b':' ∷ value_before jwt v (b',' ∷ members jwt (m ∷ ms)))

abbrev pub object : JwtLib → List (Bytes × Value) → Bytes
object jwt ms = b'{' ∷ members jwt ms

-- What a token says of a user, its start, its end and the process.
abbrev pub token_members : ℕ → Bytes → Bytes → ℕ → ℕ → List (Bytes × Value)
token_members user_id username role issued exp =
    (codes "user_id", number user_id)
    ∷ (codes "username", plain username)
    ∷ (codes "role", plain role)
    ∷ (codes "iat", number issued)
    ∷ (codes "exp", number exp)
    ∷ (codes "iss", plain (codes "obsidian-waf"))
    ∷ (codes "aud", plain (codes "obsidian-ui"))
    ∷ []

abbrev pub claims_of : ℕ → Bytes → Bytes → ℕ → Claims
claims_of user_id username role exp = record {
  user_id = user_id;
  username = username;
  role = role;
  exp = exp;
}

module _ (jwt : JwtLib) where
  payload_text-object :
      (user_id : ℕ) (username role : Bytes) (issued exp : ℕ)
      → payload_text jwt user_id username role issued exp
        ≡ object jwt (token_members user_id username role issued exp)
  unfolding payload_text
  payload_text-object user_id username role issued exp = refl

  verify_parts-Signed :
      (parts : List Bytes) (now : ℕ) (claims : Claims)
      → verify_parts jwt parts now ≡ some claims
      → Signed jwt (join b'.' parts) claims × (now ≤ claims.exp)
  unfolding verify_parts join
  verify_parts-Signed (header ∷ payload ∷ signature ∷ []) now claims h =
      elim (Bool-cases (same signature (jwt.sign (header ++ (b'.' ∷ payload))))) [
        | inr f ↦ absurd (ground (arith, f, h))
        | inl e ↦ elim (Option-cases (jwt.decode payload)) [
          | inl f ↦ absurd (ground (arith, e, f, h))
          | inr (text, d) ↦ elim (Option-cases (jwt.parse_claims text)) [
            | inl f ↦ absurd (ground (arith, e, f, d, h))
            | inr (parsed, p) ↦
                (let found : (parsed ≡ claims) × (now ≤ claims.exp) = ground (arith, e, d, p, h) in
                  (
                    record {
                      header = header;
                      payload = payload;
                      text = text;
                      parts =
                          ap (λ s. header ++ (b'.' ∷ (payload ++ (b'.' ∷ s))))
                            ((same_iff signature (jwt.sign (header ++ (b'.' ∷ payload)))).0 e);
                      decoded = d;
                      parsed = p ∙ ap some found.0;
                    },
                    found.1,
                  ))
          ]
        ]
      ]
  verify_parts-Signed _ now claims h = cc

  pub verify_jwt-Signed :
      (token : Bytes) (now : ℕ) (claims : Claims)
      → verify_jwt jwt token now ≡ some claims
      → Signed jwt token claims × (now ≤ claims.exp)
  unfolding verify_jwt
  verify_jwt-Signed token now claims h =
      subst (λ t. Signed jwt t claims × (now ≤ claims.exp)) (join-split_on b'.' token)
        (verify_parts-Signed (split_on b'.' token) now claims h)

  -- The guard passes a request only with the claims of a token that the process has signed, given
  -- in the header or else in the query, and that is not expired at either reading of the clock.
  pub auth_middleware-Signed :
      (r : Request) (verified_at now : ℕ) (claims : Claims)
      → auth_middleware jwt r verified_at now ≡ passed claims
      → (token : Bytes) × (bearer_header r ≡ codes "Bearer " ++ token)
        × Signed jwt token claims
        × (verified_at ≤ claims.exp)
        × (now ≤ claims.exp)
  unfolding auth_middleware
  auth_middleware-Signed r verified_at now claims h =
      elim (Bool-cases (has_prefix (bearer_header r) (codes "Bearer "))) [
        | inr f ↦ absurd (ground (arith, f, h))
        | inl e ↦
            let token = trim_prefix (bearer_header r) (codes "Bearer ") in
            elim (Option-cases (verify_jwt jwt token verified_at)) [
              | inl f ↦ absurd (ground (arith, e, f, h))
              | inr (c, v) ↦
                  let found : (c ≡ claims) × (now ≤ claims.exp) = ground (arith, e, v, h) in
                  let (signed, in_time) =
                    verify_jwt-Signed token verified_at claims (v ∙ ap some found.0) in
                  (
                    token,
                    sym (trim_prefix-append (bearer_header r) (codes "Bearer ") e),
                    signed,
                    in_time,
                    found.1,
                  )
            ]
      ]

  verify_parts_valid :
      (header payload text : Bytes) (now : ℕ) (claims : Claims)
      → jwt.decode payload ≡ some text
      → jwt.parse_claims text ≡ some claims
      → now ≤ claims.exp
      → verify_parts jwt (header ∷ payload ∷ jwt.sign (header ++ (b'.' ∷ payload)) ∷ []) now
        ≡ some claims
  unfolding verify_parts
  verify_parts_valid header payload text now claims d p h =
      ground (arith, same_refl (jwt.sign (header ++ (b'.' ∷ payload))), d, p, h)

  -- A token that the process makes for a user is accepted until its end, and gives the identifier,
  -- the name and the role of this user and this end, if base64 decodes what it encodes, neither it nor
  -- the signature has a dot, and the JSON reader reads them from the object that has them as the
  -- members `user_id`, `username`, `role` and `exp`.
  pub generate_jwt-verify_jwt :
      (user_id : ℕ) (username role : Bytes) (duration now later : ℕ)
      → Faithful jwt
      → jwt.parse_claims (
          object jwt
            (token_members user_id username role (now / second) ((now + duration) / second)))
        ≡ some (claims_of user_id username role ((now + duration) / second))
      → later ≤ (now + duration) / second
      → verify_jwt jwt (generate_jwt jwt user_id username role duration now) later
        ≡ some (claims_of user_id username role ((now + duration) / second))
  unfolding verify_jwt generate_jwt
  generate_jwt-verify_jwt user_id username role duration now later f p h =
      let header = codes "{\"alg\":\"HS256\",\"typ\":\"JWT\"}" in
      let exp = (now + duration) / second in
      let text = payload_text jwt user_id username role (now / second) exp in
      let read =
        ap jwt.parse_claims (payload_text-object user_id username role (now / second) exp) in
      ap (λ ps. verify_parts jwt ps later)
        (split_on_three (jwt.encode header) (jwt.encode text) _ (f.encode_no_dot header)
          (f.encode_no_dot text) (f.sign_no_dot _))
      ∙ verify_parts_valid (jwt.encode header) (jwt.encode text) text later
          (claims_of user_id username role exp) (f.decode-encode text) (read ∙ p) h
