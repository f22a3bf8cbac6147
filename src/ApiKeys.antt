-- ===== src/ApiKeys.antt =====
-- internal/app/apikeys/apikeys.go: the manager of API keys. A time is the number of nanoseconds
-- since the epoch. `hash` stands for the hexadecimal SHA-256 of package crypto/sha256, `hex` for
-- hex.EncodeToString, and `KeyStore` for the persistence that the manager is given.
pub mod Validate
pub mod Window
pub mod Manage
pub mod Life
pub mod Header
mod Tests
use obsidian.Common.Map.{Map, lookup, insert, delete, is_some}
use obsidian.Common.{
  ℕ, zero, suc, ◌+◌, ◌*◌, Bool, true, false, not, ◌&&◌, ◌||◌, List, [], ◌∷◌, ◌++◌, Option, none,
  some, Bytes, codes, same, any, take, has_prefix, to_lower, trim_space, ltb, leb, ◌==◌,
  if◌then◌else◌,
}

abbrev pub minute : ℕ
minute = 60 * 1_000_000_000

-- `type Scope string`
abbrev pub Scope : Type 0
Scope = Bytes

abbrev pub scope_admin : Scope
scope_admin = codes "admin"

pub data Error : Type 0 where
  key_not_found key_expired key_disabled insufficient_scope rate_limit_exceeded : Error
  -- failures of crypto/rand and of the store
  random_failed persist_failed load_failed : Error

pub data Result (A : Type 0) : Type 0 where
  ok : A → Result A
  err : Error → Result A

pub record ApiKey : Type 0 where
  pub id : Bytes
  pub name : Bytes
  pub key_hash : Bytes
  pub key_prefix : Bytes
  pub scopes : List Scope
  pub created_at : ℕ
  pub expires_at : Option ℕ
  pub last_used_at : Option ℕ
  pub last_used_ip : Bytes
  pub enabled : Bool
  pub rate_limit : ℕ
  pub description : Bytes
  pub created_by : Bytes

pub record KeyUsage : Type 0 where
  pub count : ℕ
  pub window_start : ℕ

-- A call returns the store's new state, and whether it had no error.
pub record KeyStore (S : Type 0) : Type 0 where
  pub save_key : S → ApiKey → S × Bool
  pub get_all_keys : S → Option (List ApiKey)
  pub delete_key : S → Bytes → S × Bool
  pub update_key_usage : S → Bytes → ℕ → Bytes → S × Bool

pub record Manager (S : Type 0) : Type 0 where
  pub keys : Map ApiKey
  pub prefixes : Map Bytes
  pub usage : Map KeyUsage
  pub store : Option S

unfoldable pub new_manager : {S : Type 0} → Option S → Manager S
new_manager store = record { keys = []; prefixes = []; usage = []; store = store }

-- The strings of `GenerateKey`: the key itself and what is shown of it.
abbrev pub plaintext_of : Bytes → Bytes
plaintext_of raw = codes "obs_" ++ raw

unfoldable pub has_scope : ApiKey → Scope → Bool
has_scope key required = any (λ s. same s required || same s scope_admin) key.scopes

-- `key.ExpiresAt != nil && now.After(*key.ExpiresAt)`
unfoldable pub is_expired : Option ℕ → ℕ → Bool
is_expired none now = false
is_expired (some at) now = ltb at now

-- The key that a call's loop over the map finds by its ID: the first, in the map's order.
unfoldable pub find_by_id : Bytes → Map ApiKey → Option (Bytes × ApiKey)
find_by_id id [] = none
find_by_id id ((h, key) ∷ m) = if same key.id id then some (h, key) else find_by_id id m

module _ {S : Type 0} where
  -- A count that is not past its window is raised; the answer is whether the request may pass.
  unfoldable pub check_rate_limit : Manager S → Bytes → ℕ → ℕ → Manager S × Bool
  check_rate_limit m key_hash limit now =
      let fresh = record m {
        usage = insert key_hash (record { count = 1; window_start = now }) m.usage;
      } in
      elim (lookup key_hash m.usage) [
        | none ↦ (fresh, true)
        | some u ↦
            if leb (u.window_start + minute) now
            then (fresh, true)
            else if leb limit u.count
            then (m, false)
            else (
              record m { usage = insert key_hash (record u { count = u.count + 1 }) m.usage },
              true,
            )
      ]
