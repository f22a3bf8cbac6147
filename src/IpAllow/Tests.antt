-- ===== src/IpAllow/Tests.antt =====
-- The list on small inputs. An address is its text, a network the prefix that its addresses have,
-- and a store is the number of its calls.
use obsidian.Common.Map.{lookup}
use obsidian.Common.{
  ℕ, suc, ◌≡◌, ◌↔◌, refl, true, false, [], ◌∷◌, none, some, Bytes, codes, same, has_prefix,
}
use obsidian.IpAllow.{
  store_failed, ok, err, IpLib, AllowlistEntry, AllowlistStore, Manager, default_config, blank,
  find_by_id,
}
use obsidian.IpAllow.Api.{insert_ip, add_ip, hit, first_range, is_allowed, set_enabled}
use obsidian.IpAllow.Admit.{Admitted, is_allowed-Admitted}

abbrev texts : IpLib Bytes Bytes
texts = record {
  parse_ip = λ s. some s;
  ip_string = λ s. s;
  is_loopback = λ s. has_prefix s (codes "127.");
  parse_cidr = λ s. some s;
  net_string = λ s. s;
  net_contains = λ n s. has_prefix s n;
}

abbrev counting : AllowlistStore ℕ Bytes
counting = record {
  save_entry = λ s e. (suc s, true);
  get_all_entries = λ s. none;
  delete_entry = λ s id. (suc s, true);
  update_hit = λ s id at. (suc s, true);
}

-- A store that saves nothing.
abbrev broken : AllowlistStore ℕ Bytes
broken = record counting { save_entry = λ s e. (suc s, false) }

abbrev strict : Manager ℕ Bytes
strict = record {
  heap = [];
  entries = [];
  cidrs = [];
  store = some 0;
  config = record default_config { enabled = true };
}

-- An entry for a range that is switched off is off in the list of ranges too.
abbrev with_range : Manager ℕ Bytes
with_range = record strict {
  heap =
      record blank { id = codes "1"; ip = codes "10."; cidr = some (codes "10."); enabled = true }
      ∷ [];
  entries = (codes "10.", 0) ∷ [];
  cidrs = 0 ∷ [];
}

range_admits : (is_allowed texts counting with_range (codes "10.0.0.5") 7).1 ≡ true
unfolding is_allowed hit lookup first_range has_prefix same
range_admits = refl

switched_off :
    (is_allowed texts counting
      (set_enabled texts counting with_range (codes "1") false).0
      (codes "10.0.0.5")
      7).1
    ≡ false
unfolding is_allowed hit lookup first_range has_prefix same set_enabled find_by_id
switched_off = refl

is_allowed-Admitted_example :
    ((is_allowed texts counting with_range (codes "10.0.0.5") 7).1 ≡ true)
    ↔ Admitted texts counting with_range (codes "10.0.0.5")
is_allowed-Admitted_example = is_allowed-Admitted texts counting with_range (codes "10.0.0.5") 7

abbrev desk : AllowlistEntry Bytes
desk = record blank { id = codes "2"; ip = codes "192.0.2.1"; created_at = 3; enabled = true }

desk_added : (add_ip texts counting strict (codes "192.0.2.1") [] [] (codes "2") 3).1 ≡ ok desk
unfolding add_ip insert_ip lookup
desk_added = refl

desk_lost :
    (add_ip texts broken strict (codes "192.0.2.1") [] [] (codes "2") 3).1 ≡ err store_failed
unfolding add_ip insert_ip lookup
desk_lost = refl
