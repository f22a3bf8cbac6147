-- ===== src/Threat/Listed.antt =====
-- What a refresh of the feeds blocks.
use obsidian.Common.Map.{is_some}
use obsidian.Common.{◌≡◌, ◌⊎◌, true, false, List, ◌∷◌, some, Bytes, fields}
use obsidian.Security.{NetLib}
use obsidian.Threat.{ThreatIntel, check_ip}
use obsidian.Threat.Feeds.{is_comment, is_range}

module _ {Ip Net : Type 0} (net : NetLib Ip Net) where
  -- The address is blocked.
  abbrev pub Covered : ThreatIntel Net → Bytes → Type 0
  Covered ti ip = is_some (check_ip net ti ip) ≡ true

  -- The trimmed line of a feed is for the address, or for a range with it.
  abbrev pub Names : Bytes → Bytes → Bytes → Type 0
  Names line feed_type ip =
      (is_comment line ≡ false)
      × (((is_range net line feed_type ≡ false)
            × ((others : List Bytes) × (p : Ip) × (fields line ≡ ip ∷ others)
                × (net.parse_ip ip ≡ some p)))
          ⊎ ((is_range net line feed_type ≡ true)
              × ((cidr : Bytes) × (others : List Bytes) × (n : Net) × (p : Ip) × (fields line
                    ≡ cidr ∷ others)
                  × (net.parse_cidr cidr ≡ some n)
                  × (net.parse_ip ip ≡ some p)
                  × (net.net_contains n p ≡ true))))
