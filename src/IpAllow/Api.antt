-- ===== src/IpAllow/Api.antt =====
-- The operations of the list of internal/app/ipallow/ipallow.go.
use obsidian.Common.Map.{lookup, insert, delete, is_some}
use obsidian.Common.{
  ℕ, suc, Bool, true, false, not, ◌&&◌, List, [], ◌∷◌, ◌++◌, Option, none, some, Bytes, same,
  length, set, if◌then◌else◌,
}
use obsidian.RateLimit.Http.{before_comma}
use obsidian.Security.{split_host_port}
use obsidian.IpAllow.{
  AllowlistEntry, AllowlistStore, IpLib, Manager, Result, already_exists, blank, drop_last,
  entry_at, err, find_by_id, invalid_cidr, invalid_ip, not_found, ok, store_failed, without,
}

module _ {S Ip Net : Type 0} (net : IpLib Ip Net) (st : AllowlistStore S Net) where
  unfoldable pub load_all : Manager S Net → List (AllowlistEntry Net) → Manager S Net
  load_all m [] = m
  load_all m (e ∷ es) =
      let i = length m.heap in
      load_all
        (record m {
          heap = m.heap ++ e ∷ [];
          entries = insert e.ip i m.entries;
          cidrs = if is_some e.cidr then m.cidrs ++ i ∷ [] else m.cidrs;
        })
        es

  unfoldable pub load_entries : Manager S Net → Manager S Net × Result Unit
  load_entries m = elim m.store [
    | none ↦ (m, ok tt)
    | some s ↦ elim (st.get_all_entries s) [
      | none ↦ (m, err store_failed)
      | some es ↦ (load_all m es, ok tt)
    ]
  ]

  abbrev pub new_entry : Bytes → Bytes → Option Net → Bytes → Bytes → ℕ → AllowlistEntry Net
  new_entry id key cidr description created_by now = record blank {
    id = id;
    ip = key;
    cidr = cidr;
    description = description;
    created_at = now;
    created_by = created_by;
    enabled = true;
  }

  -- `id` is what generateID returns. The rollback is the block after a store's error.
  unfoldable pub insert_ip :
      Manager S Net → AllowlistEntry Net → Manager S Net × Result (AllowlistEntry Net)
  insert_ip m e =
      if is_some (lookup e.ip m.entries)
      then (m, err already_exists)
      else (let kept = record m {
        heap = m.heap ++ e ∷ [];
        entries = insert e.ip (length m.heap) m.entries;
      } in
          elim m.store [
            | none ↦ (kept, ok e)
            | some s ↦
                (let (s', saved) = st.save_entry s e in
                  if saved then (record kept { store = some s' }, ok e) else (
                    record kept { store = some s'; entries = delete e.ip kept.entries },
                    err store_failed,
                  ))
          ])

  unfoldable pub add_ip :
      Manager S Net
      → Bytes
      → Bytes
      → Bytes
      → Bytes
      → ℕ
      → Manager S Net × Result (AllowlistEntry Net)
  add_ip m ip description created_by id now = elim (net.parse_ip ip) [
    | none ↦ (m, err invalid_ip)
    | some p ↦ insert_ip m (new_entry id (net.ip_string p) none description created_by now)
  ]

  unfoldable pub insert_cidr :
      Manager S Net → AllowlistEntry Net → Manager S Net × Result (AllowlistEntry Net)
  insert_cidr m e =
      if is_some (lookup e.ip m.entries)
      then (m, err already_exists)
      else (let i = length m.heap in
          let kept = record m {
            heap = m.heap ++ e ∷ [];
            entries = insert e.ip i m.entries;
            cidrs = m.cidrs ++ i ∷ [];
          } in
          elim m.store [
            | none ↦ (kept, ok e)
            | some s ↦
                (let (s', saved) = st.save_entry s e in
                  if saved then (record kept { store = some s' }, ok e) else (
                    record kept {
                      store = some s';
                      entries = delete e.ip kept.entries;
                      cidrs = drop_last kept.cidrs;
                    },
                    err store_failed,
                  ))
          ])

  unfoldable pub add_cidr :
      Manager S Net
      → Bytes
      → Bytes
      → Bytes
      → Bytes
      → ℕ
      → Manager S Net × Result (AllowlistEntry Net)
  add_cidr m cidr description created_by id now = elim (net.parse_cidr cidr) [
    | none ↦ (m, err invalid_cidr)
    | some n ↦ insert_cidr m (new_entry id (net.net_string n) (some n) description created_by now)
  ]

  abbrev pub stored : Bool → Result Unit
  stored good = if good then ok tt else err store_failed

  unfoldable pub remove_entry : Manager S Net → Bytes → Manager S Net × Result Unit
  remove_entry m id = elim (find_by_id id m m.entries) [
    | none ↦ (m, err not_found)
    | some i ↦
        let dropped = record m {
          entries = delete (entry_at m i).ip m.entries;
          cidrs = if is_some (entry_at m i).cidr then without id m m.cidrs else m.cidrs;
        } in
        elim m.store [
          | none ↦ (dropped, ok tt)
          | some s ↦
              (let (s', gone) = st.delete_entry s id in
                (record dropped { store = some s' }, stored gone))
        ]
  ]

  unfoldable pub set_enabled : Manager S Net → Bytes → Bool → Manager S Net × Result Unit
  set_enabled m id on = elim (find_by_id id m m.entries) [
    | none ↦ (m, err not_found)
    | some i ↦
        let e = record (entry_at m i) { enabled = on } in
        let changed = record m { heap = set m.heap i e } in
        elim m.store [
          | none ↦ (changed, ok tt)
          | some s ↦
              (let (s', saved) = st.save_entry s e in
                (record changed { store = some s' }, stored saved))
        ]
  ]

  -- `entry.Enabled && entry.CIDR != nil && entry.CIDR.Contains(parsedIP)`
  abbrev pub covers : AllowlistEntry Net → Ip → Bool
  covers e p = e.enabled && (elim e.cidr [ none ↦ false | some n ↦ net.net_contains n p ])

  unfoldable pub first_range : Manager S Net → Ip → List ℕ → Option ℕ
  first_range m p [] = none
  first_range m p (i ∷ is) = if covers (entry_at m i) p then some i else first_range m p is

  -- The entry that a listed address hits.
  unfoldable pub hit : Manager S Net → Ip → Option ℕ
  hit m p = elim (lookup (net.ip_string p) m.entries) [
    | some i ↦ if (entry_at m i).enabled then some i else first_range m p m.cidrs
    | none ↦ first_range m p m.cidrs
  ]

  unfoldable pub record_hit : Manager S Net → ℕ → ℕ → Manager S Net
  record_hit m i now =
      let e = entry_at m i in
      record m {
        heap = set m.heap i (record e { last_hit = some now; hit_count = suc e.hit_count });
        store = elim m.store [ none ↦ none | some s ↦ some (st.update_hit s e.id now).0 ];
      }

  unfoldable pub is_allowed : Manager S Net → Bytes → ℕ → Manager S Net × Bool
  is_allowed m ip now = if not m.config.enabled then (m, true) else elim (net.parse_ip ip) [
    | none ↦ (m, false)
    | some p ↦
        if m.config.allow_localhost && net.is_loopback p
        then (m, true)
        else elim (hit m p) [ none ↦ (m, false) | some i ↦ (record_hit m i now, true) ]
  ]

unfoldable pub extract_ip : Bytes → Bytes → Bytes
extract_ip remote_addr forwarded_for =
    if not (same forwarded_for [])
    then before_comma forwarded_for
    else elim (split_host_port remote_addr) [ none ↦ remote_addr | some host ↦ host ]
