-- ===== src/ApiKeys/Manage.antt =====
-- The life of a key: `GenerateKey`, `LoadKeys`, `RevokeKey`, `DeleteKey`, `ListKeys` and
-- `GetKeyByID` of internal/app/apikeys/apikeys.go. `rand.Read` may fail: the bytes that it gives are
-- arguments. A map's loop stops at the first key with the ID, in the order of the association list.
use obsidian.Common.Map.{insert, delete}
use obsidian.Common.{
  ℕ, ◌+◌, true, false, List, [], ◌∷◌, Option, none, some, map, Bytes, take, if◌then◌else◌,
}
use obsidian.ApiKeys.{
  Scope, key_not_found, random_failed, persist_failed, load_failed, Result, ok, err, ApiKey,
  KeyStore, Manager, plaintext_of, find_by_id,
}

-- What `GenerateKey` is called with.
pub record NewKey : Type 0 where
  pub name : Bytes
  pub scopes : List Scope
  pub expires_in : Option ℕ
  pub rate_limit : ℕ
  pub description : Bytes
  pub created_by : Bytes

-- `exp := now.Add(*expiresIn)`
abbrev pub expiry : ℕ → Option ℕ → Option ℕ
expiry now none = none
expiry now (some d) = some (now + d)

module _ (hash hex : Bytes → Bytes) {S : Type 0} (st : KeyStore S) where
  abbrev pub built_key : NewKey → Bytes → Bytes → ℕ → ApiKey
  built_key new plaintext id_bytes now = record {
    id = hex id_bytes;
    name = new.name;
    key_hash = hash plaintext;
    key_prefix = take 12 plaintext;
    scopes = new.scopes;
    created_at = now;
    expires_at = expiry now new.expires_in;
    last_used_at = none;
    last_used_ip = [];
    enabled = true;
    rate_limit = new.rate_limit;
    description = new.description;
    created_by = new.created_by;
  }

  -- The key is in memory before the store is asked, and is taken back if the store fails.
  unfoldable pub persist_key : Manager S → Bytes → ApiKey → Manager S × Result (Bytes × ApiKey)
  persist_key m plaintext key =
      let kept = record m {
        keys = insert key.key_hash key m.keys;
        prefixes = insert key.key_prefix key.key_hash m.prefixes;
      } in
      elim m.store [
        | none ↦ (kept, ok (plaintext, key))
        | some s ↦
            (let (s', saved) = st.save_key s key in
              if saved then (record kept { store = some s' }, ok (plaintext, key)) else (
                record kept {
                  keys = delete key.key_hash kept.keys;
                  prefixes = delete key.key_prefix kept.prefixes;
                  store = some s';
                },
                err persist_failed,
              ))
      ]

  unfoldable pub generate_key :
      Manager S → NewKey → Option Bytes → Option Bytes → ℕ → Manager S × Result (Bytes × ApiKey)
  generate_key m new raw id_bytes now = elim raw [
    | none ↦ (m, err random_failed)
    | some r ↦ elim id_bytes [
      | none ↦ (m, err random_failed)
      | some i ↦ persist_key m (plaintext_of (hex r)) (built_key new (plaintext_of (hex r)) i now)
    ]
  ]

  unfoldable pub add_loaded : Manager S → List ApiKey → Manager S
  add_loaded m [] = m
  add_loaded m (key ∷ ks) =
      add_loaded
        (record m {
          keys = insert key.key_hash key m.keys;
          prefixes = insert key.key_prefix key.key_hash m.prefixes;
        })
        ks

  unfoldable pub load_keys : Manager S → Manager S × Result Unit
  load_keys m = elim m.store [
    | none ↦ (m, ok tt)
    | some s ↦ elim (st.get_all_keys s) [
      | none ↦ (m, err load_failed)
      | some ks ↦ (add_loaded m ks, ok tt)
    ]
  ]

  unfoldable pub revoke_key : Manager S → Bytes → Manager S × Result Unit
  revoke_key m id = elim (find_by_id id m.keys) [
    | none ↦ (m, err key_not_found)
    | some (h, key) ↦
        let off = record key { enabled = false } in
        let disabled = record m { keys = insert h off m.keys } in
        elim m.store [
          | none ↦ (disabled, ok tt)
          | some s ↦
              (let (s', saved) = st.save_key s off in
                (record disabled { store = some s' }, if saved then ok tt else err persist_failed))
        ]
  ]

  unfoldable pub delete_key : Manager S → Bytes → Manager S × Result Unit
  delete_key m id = elim (find_by_id id m.keys) [
    | none ↦ (m, err key_not_found)
    | some (h, key) ↦
        let dropped = record m {
          keys = delete h m.keys;
          prefixes = delete key.key_prefix m.prefixes;
          usage = delete h m.usage;
        } in
        elim m.store [
          | none ↦ (dropped, ok tt)
          | some s ↦
              (let (s', gone) = st.delete_key s h in
                (record dropped { store = some s' }, if gone then ok tt else err persist_failed))
        ]
  ]

  unfoldable pub list_keys : Manager S → List ApiKey
  list_keys m = map (λ e. e.1) m.keys

  unfoldable pub get_key_by_id : Manager S → Bytes → Result ApiKey
  get_key_by_id m id = elim (find_by_id id m.keys) [
    | none ↦ err key_not_found
    | some (h, key) ↦ ok key
  ]
