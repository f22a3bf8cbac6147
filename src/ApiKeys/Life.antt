-- ===== src/ApiKeys/Life.antt =====
-- A key from its creation to its end: what `ValidateKey` answers after `GenerateKey`, `RevokeKey`
-- and `DeleteKey` of internal/app/apikeys/apikeys.go.
use obsidian.Common.Map.{lookup, insert, lookup-insert, lookup-delete}
use mathlib.Core.Path.{subst, sym, ap, ◌∙◌}
use obsidian.Common.{
  ℕ, ◌+◌, ◌≤◌, ◌≡◌, refl, inl, inr, ◌⊎◌, ◌||◌, true, false, List, [], ◌∷◌, Option, none, some,
  arith, Bytes, same, same_iff, same_refl, any, Option-cases,
}
use obsidian.ApiKeys.{
  Scope, scope_admin, Error, key_not_found, key_disabled, ok, err, ApiKey, KeyStore, Manager,
  plaintext_of, find_by_id, has_scope, is_expired, check_rate_limit,
}
use obsidian.ApiKeys.Validate.{use_key, check_key, validate_key, Covers, In}
use obsidian.ApiKeys.Manage.{
  NewKey, expiry, built_key, persist_key, generate_key, revoke_key, delete_key,
}

module _ (hash hex : Bytes → Bytes) {S : Type 0} (st : KeyStore S) where
  -- Once a key is revoked it is refused as disabled, also when the store could not save that.
  pub revoke_key-validate_key :
      (m : Manager S) (id plaintext : Bytes) (key : ApiKey) (required : Scope) (client_ip : Bytes)
      (expiry_at window_at used_at : ℕ)
      → find_by_id id m.keys ≡ some (hash plaintext, key)
      → (validate_key hash st
          (revoke_key hash hex st m id).0
          plaintext
          required
          client_ip
          expiry_at
          window_at
          used_at).1
        ≡ err key_disabled
  unfolding revoke_key validate_key check_key
  revoke_key-validate_key m id plaintext key required client_ip expiry_at window_at used_at found =
      elim (Option-cases m.store) [
        | inl e ↦ ground (
          arith,
          found,
          e,
          lookup-insert (hash plaintext) (hash plaintext) (record key { enabled = false }) m.keys,
          same_refl (hash plaintext),
        )
        | inr (s, e) ↦ ground (
          arith,
          found,
          e,
          lookup-insert (hash plaintext) (hash plaintext) (record key { enabled = false }) m.keys,
          same_refl (hash plaintext),
        )
      ]

  -- Once a key is deleted it is unknown, also when the store could not delete it.
  pub delete_key-validate_key :
      (m : Manager S) (id plaintext : Bytes) (key : ApiKey) (required : Scope) (client_ip : Bytes)
      (expiry_at window_at used_at : ℕ)
      → find_by_id id m.keys ≡ some (hash plaintext, key)
      → (validate_key hash st
          (delete_key hash hex st m id).0
          plaintext
          required
          client_ip
          expiry_at
          window_at
          used_at).1
        ≡ err key_not_found
  unfolding delete_key validate_key
  delete_key-validate_key m id plaintext key required client_ip expiry_at window_at used_at found =
      elim (Option-cases m.store) [
        | inl e ↦ ground (
          arith,
          found,
          e,
          lookup-delete (hash plaintext) (hash plaintext) m.keys,
          same_refl (hash plaintext),
        )
        | inr (s, e) ↦ ground (
          arith,
          found,
          e,
          lookup-delete (hash plaintext) (hash plaintext) m.keys,
          same_refl (hash plaintext),
        )
      ]

  -- A creation that fails changes no known key, if the new text's hash was not known before.
  pub generate_key-err :
      (m : Manager S) (new : NewKey) (raw id_bytes : Option Bytes) (now : ℕ) (e : Error) (j : Bytes)
      → (generate_key hash hex st m new raw id_bytes now).1 ≡ err e
      → ((r : Bytes) → raw ≡ some r → lookup (hash (plaintext_of (hex r))) m.keys ≡ none)
      → lookup j (generate_key hash hex st m new raw id_bytes now).0.keys ≡ lookup j m.keys
  unfolding generate_key persist_key
  generate_key-err m new none i now e j failed fresh = refl
  generate_key-err m new (some r) none now e j failed fresh = refl
  generate_key-err m new (some r) (some i) now e j failed fresh =
      let p = plaintext_of (hex r) in
      let key = built_key hash hex st new p i now in
      let gone = lookup-delete (hash p) j (insert (hash p) key m.keys) in
      let put = lookup-insert (hash p) j key m.keys in
      let absent = fresh r refl in
      elim (Option-cases m.store) [
        | inl none_given ↦ ground (arith, failed, none_given)
        | inr (s, given) ↦ ground (arith, failed, given, gone, put, absent, same_iff (hash p) j)
      ]

has_scope-In :
    (required : Scope) (scopes : List Scope)
    → In required scopes ⊎ In scope_admin scopes
    → any (λ s. same s required || same s scope_admin) scopes ≡ true
has_scope-In required [] h = ground arith
has_scope-In required (s ∷ scopes) h =
    ground (arith, h, has_scope-In required scopes, same_iff s required, same_iff s scope_admin)

is_expired-new :
    (now : ℕ) (o : Option ℕ) (t : ℕ)
    → ((d : ℕ) → o ≡ some d → t ≤ now + d)
    → is_expired (expiry now o) t ≡ false
unfolding is_expired
is_expired-new now none t h = refl
is_expired-new now (some d) t h = ground (arith, h d refl)

module _ (hash hex : Bytes → Bytes) {S : Type 0} (st : KeyStore S) where
  persist_key-ok :
      (m : Manager S) (p : Bytes) (k : ApiKey) (text : Bytes) (key : ApiKey)
      → (persist_key hash hex st m p k).1 ≡ ok (text, key)
      → (lookup k.key_hash (persist_key hash hex st m p k).0.keys ≡ some k)
        × ((persist_key hash hex st m p k).0.usage ≡ m.usage)
        × (p ≡ text)
        × (k ≡ key)
  unfolding persist_key
  persist_key-ok m p k text key made =
      let put = lookup-insert k.key_hash k.key_hash k m.keys in
      elim (Option-cases m.store) [
        | inl e ↦ ground (arith, made, e, put, same_refl k.key_hash)
        | inr (s, e) ↦ ground (arith, made, e, put, same_refl k.key_hash)
      ]

  generate_key-ok :
      (m : Manager S) (new : NewKey) (raw id_bytes : Option Bytes) (now : ℕ) (text : Bytes)
      (key : ApiKey)
      → (generate_key hash hex st m new raw id_bytes now).1 ≡ ok (text, key)
      → (lookup (hash text) (generate_key hash hex st m new raw id_bytes now).0.keys ≡ some key)
        × ((generate_key hash hex st m new raw id_bytes now).0.usage ≡ m.usage)
        × (i : Bytes) × (key ≡ built_key hash hex st new text i now)
  unfolding generate_key persist_key
  generate_key-ok m new none i now text key made = ground (arith, made)
  generate_key-ok m new (some r) none now text key made = ground (arith, made)
  generate_key-ok m new (some r) (some i) now text key made =
      let p = plaintext_of (hex r) in
      let k = built_key hash hex st new p i now in
      let (known, usage, same_text, same_key) = persist_key-ok m p k text key made in
      (
        subst (λ t. lookup (hash t) (persist_key hash hex st m p k).0.keys ≡ some key) same_text
            (known ∙ ap some same_key),
        usage,
        i,
        sym same_key ∙ ap (λ t. built_key hash hex st new t i now) same_text,
      )

  check_key-accepts :
      (m : Manager S) (key_hash : Bytes) (key : ApiKey) (required : Scope) (client_ip : Bytes)
      (expiry_at window_at used_at : ℕ)
      → key.enabled ≡ true
      → is_expired key.expires_at expiry_at ≡ false
      → Covers key.scopes required
      → lookup key_hash m.usage ≡ none
      → (check_key hash st m key_hash key required client_ip expiry_at window_at used_at).1
        ≡ ok (record key { last_used_at = some used_at; last_used_ip = client_ip })
  unfolding check_key use_key check_rate_limit has_scope
  check_key-accepts m key_hash key required client_ip expiry_at window_at used_at on alive covers
        idle =
      let scope : (required ≡ [])
          ⊎ (any (λ s. same s required || same s scope_admin) key.scopes ≡ true) =
        elim covers [ inl e ↦ inl e | inr c ↦ inr (has_scope-In required key.scopes c) ] in
      ground (arith, on, alive, scope, idle, same_iff required [])

  -- A key that was just created is accepted for a scope that it covers, until its expiry, if no
  -- rate is counted for its hash yet.
  pub generate_key-validate_key :
      (m : Manager S) (new : NewKey) (raw id_bytes : Option Bytes) (now : ℕ) (text : Bytes)
      (key : ApiKey) (required : Scope) (client_ip : Bytes) (expiry_at window_at used_at : ℕ)
      → (generate_key hash hex st m new raw id_bytes now).1 ≡ ok (text, key)
      → lookup (hash text) m.usage ≡ none
      → Covers new.scopes required
      → ((d : ℕ) → new.expires_in ≡ some d → expiry_at ≤ now + d)
      → (validate_key hash st
          (generate_key hash hex st m new raw id_bytes now).0
          text
          required
          client_ip
          expiry_at
          window_at
          used_at).1
        ≡ ok (record key { last_used_at = some used_at; last_used_ip = client_ip })
  unfolding validate_key
  generate_key-validate_key m new raw id_bytes now text key required client_ip expiry_at window_at
        used_at made idle covers alive =
      let (known, usage, i, same_key) = generate_key-ok m new raw id_bytes now text key made in
      let live : is_expired key.expires_at expiry_at ≡ false =
        rw same_key (is_expired-new now new.expires_in expiry_at alive) in
      rw (known, validate_key)
        (check_key-accepts (generate_key hash hex st m new raw id_bytes now).0 (hash text) key
          required client_ip expiry_at window_at used_at (ap (λ k. k.enabled) same_key) live
          (rw same_key covers) (ap (lookup (hash text)) usage ∙ idle))
