-- ===== src/Threat.antt =====
-- internal/app/threat/threat.go: the addresses and ranges of the threat feeds. `NetLib` stands for
-- the addresses and networks of package net. What a feed answers over HTTP is an argument. The map
-- of the entries holds pointers that only its own calls write, so it is a map of values here.
pub mod Feeds
pub mod Listed
pub mod Held
pub mod Lost
mod Tests
use obsidian.Common.Map.{Map, lookup, insert, delete, is_some}
use obsidian.Common.{
  ℕ, suc, Bool, true, false, ◌||◌, List, [], ◌∷◌, Option, none, some, Bytes, codes, if◌then◌else◌,
}
use obsidian.Security.{NetLib}

pub record ThreatEntry : Type 0 where
  pub ip : Bytes
  pub risk_level : Bytes
  pub category : Bytes
  pub source : Bytes
  pub first_seen : ℕ
  pub last_seen : ℕ
  pub hit_count : ℕ

pub record ThreatFeed : Type 0 where
  pub name : Bytes
  pub url : Bytes
  pub enabled : Bool
  pub last_update : ℕ
  pub entry_count : ℕ
  pub feed_type : Bytes

pub record ThreatIntel (Net : Type 0) : Type 0 where
  pub blocked_ips : Map ThreatEntry
  pub cidr_blocks : List Net
  pub feeds : List ThreatFeed
  pub last_update : ℕ

pub data Error : Type 0 where
  invalid_ip not_blocked : Error

pub data Result : Type 0 where
  ok : Result
  err : Error → Result

abbrev pub custom_source : Bytes
custom_source = codes "Custom Blocklist"

-- The entry that `CheckIP` answers with for an address of a range.
abbrev pub range_entry : Bytes → ThreatEntry
range_entry ip = record {
  ip = ip;
  risk_level = codes "HIGH";
  category = codes "Malicious Network Range";
  source = codes "CIDR Block";
  first_seen = 0;
  last_seen = 0;
  hit_count = 0;
}

abbrev pub custom_entry : Bytes → Bytes → ℕ → ThreatEntry
custom_entry ip category now = record {
  ip = ip;
  risk_level = codes "HIGH";
  category = category;
  source = custom_source;
  first_seen = now;
  last_seen = now;
  hit_count = 0;
}

-- The entry after one more hit.
abbrev pub hit_entry : ThreatEntry → ℕ → ThreatEntry
hit_entry e now = record e { last_seen = now; hit_count = suc e.hit_count }

module _ {Ip Net : Type 0} (net : NetLib Ip Net) where
  unfoldable pub in_ranges : List Net → Ip → Bool
  in_ranges [] p = false
  in_ranges (n ∷ ns) p = net.net_contains n p || in_ranges ns p

  unfoldable pub check_ip : ThreatIntel Net → Bytes → Option ThreatEntry
  check_ip ti ip = elim (lookup ip ti.blocked_ips) [
    | some e ↦ some e
    | none ↦ elim (net.parse_ip ip) [
      | none ↦ none
      | some p ↦ if in_ranges ti.cidr_blocks p then some (range_entry ip) else none
    ]
  ]

  unfoldable pub block_ip : ThreatIntel Net → Bytes → Bytes → ℕ → ThreatIntel Net × Result
  block_ip ti ip category now = elim (net.parse_ip ip) [
    | none ↦ (ti, err invalid_ip)
    | some p ↦
        (record ti { blocked_ips = insert ip (custom_entry ip category now) ti.blocked_ips }, ok)
  ]

module _ {Net : Type 0} where
  unfoldable pub unblock_ip : ThreatIntel Net → Bytes → ThreatIntel Net × Result
  unblock_ip ti ip =
      if is_some (lookup ip ti.blocked_ips)
      then (record ti { blocked_ips = delete ip ti.blocked_ips }, ok)
      else (ti, err not_blocked)

  unfoldable pub record_hit : ThreatIntel Net → Bytes → ℕ → ThreatIntel Net
  record_hit ti ip now = elim (lookup ip ti.blocked_ips) [
    | none ↦ ti
    | some e ↦ record ti { blocked_ips = insert ip (hit_entry e now) ti.blocked_ips }
  ]
