-- ===== src/IpAllow.antt =====
-- internal/app/ipallow/ipallow.go: the list of addresses that may use the administration. Entries
-- are shared by reference, so the manager has a heap of them, and a reference is an index in it.
-- `IpLib` stands for the addresses and the networks of package net. A hit is recorded at once.
pub mod Api
pub mod Admit
pub mod Change
mod Tests
use obsidian.Common.Map.{Map, lookup, insert, delete, is_some}
use obsidian.Common.{
  ℕ, suc, ◌+◌, Bool, true, false, not, ◌&&◌, ◌||◌, List, [], ◌∷◌, ◌++◌, Option, none, some, Bytes,
  codes, same, length, get_or, set, if◌then◌else◌,
}

pub data Error : Type 0 where
  invalid_ip invalid_cidr already_exists not_found store_failed : Error

pub data Result (A : Type 0) : Type 0 where
  ok : A → Result A
  err : Error → Result A

pub record IpLib (Ip Net : Type 0) : Type 0 where
  pub parse_ip : Bytes → Option Ip
  pub ip_string : Ip → Bytes
  pub is_loopback : Ip → Bool
  pub parse_cidr : Bytes → Option Net
  pub net_string : Net → Bytes
  pub net_contains : Net → Ip → Bool

pub record AllowlistEntry (Net : Type 0) : Type 0 where
  pub id : Bytes
  pub ip : Bytes
  pub cidr : Option Net
  pub description : Bytes
  pub created_at : ℕ
  pub created_by : Bytes
  pub last_hit : Option ℕ
  pub hit_count : ℕ
  pub enabled : Bool

pub record Config : Type 0 where
  pub enabled : Bool
  pub enforce_for_api : Bool
  pub enforce_for_dashboard : Bool
  pub allow_localhost : Bool
  pub bypass_header : Bytes
  pub bypass_secret : Bytes

abbrev pub default_config : Config
default_config = record {
  enabled = false;
  enforce_for_api = true;
  enforce_for_dashboard = true;
  allow_localhost = true;
  bypass_header = [];
  bypass_secret = [];
}

-- A call returns the store's new state, and whether it had no error.
pub record AllowlistStore (S Net : Type 0) : Type 0 where
  pub save_entry : S → AllowlistEntry Net → S × Bool
  pub get_all_entries : S → Option (List (AllowlistEntry Net))
  pub delete_entry : S → Bytes → S × Bool
  pub update_hit : S → Bytes → ℕ → S × Bool

pub record Manager (S Net : Type 0) : Type 0 where
  pub heap : List (AllowlistEntry Net)
  pub entries : Map ℕ
  pub cidrs : List ℕ
  pub config : Config
  pub store : Option S

-- What a dangling reference would read; the manager has none.
abbrev pub blank : {Net : Type 0} → AllowlistEntry Net
blank = record {
  id = [];
  ip = [];
  cidr = none;
  description = [];
  created_at = 0;
  created_by = [];
  last_hit = none;
  hit_count = 0;
  enabled = false;
}

-- All but the last, as `m.cidrs[:len(m.cidrs)-1]`.
unfoldable pub drop_last : List ℕ → List ℕ
drop_last [] = []
drop_last (i ∷ []) = []
drop_last (i ∷ j ∷ is) = i ∷ drop_last (j ∷ is)

module _ {S Net : Type 0} where
  unfoldable pub new_manager : Option Config → Option S → Manager S Net
  new_manager config store = record {
    heap = [];
    entries = [];
    cidrs = [];
    store = store;
    config = elim config [ none ↦ default_config | some c ↦ c ];
  }

  abbrev pub entry_at : Manager S Net → ℕ → AllowlistEntry Net
  entry_at m i = get_or m.heap i blank

  unfoldable pub without : Bytes → Manager S Net → List ℕ → List ℕ
  without id m [] = []
  without id m (i ∷ is) =
      let rest = without id m is in if same (entry_at m i).id id then rest else i ∷ rest

  unfoldable pub find_by_id : Bytes → Manager S Net → Map ℕ → Option ℕ
  find_by_id id m [] = none
  find_by_id id m ((k, i) ∷ es) = if same (entry_at m i).id id then some i else find_by_id id m es

  abbrev pub set_config : Manager S Net → Config → Manager S Net
  set_config m config = record m { config = config }

  abbrev pub switch : Manager S Net → Bool → Manager S Net
  switch m on = record m { config = record (m.config) { enabled = on } }

  unfoldable pub check_bypass_header : Manager S Net → Bytes → Bool
  check_bypass_header m header_value =
      not (same m.config.bypass_header [])
      && not (same m.config.bypass_secret [])
      && same header_value m.config.bypass_secret
