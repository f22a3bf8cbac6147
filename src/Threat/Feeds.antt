-- ===== src/Threat/Feeds.antt =====
-- parseEntry, parseFeed, fetchFeed and RefreshFeeds, and the file that the entries are kept in.
use obsidian.Common.Map.{Map, lookup, insert}
use obsidian.Common.{
  ℕ, ◌+◌, Bool, not, ◌&&◌, ◌||◌, List, [], ◌∷◌, ◌++◌, Option, none, some, Bytes, codes, same,
  contains, fields, has_prefix, trim_space, if◌then◌else◌,
}
use obsidian.Security.{NetLib}
use obsidian.Threat.{ThreatEntry, ThreatFeed, ThreatIntel, hit_entry}

-- What a feed answered with status 200: the lines, whether the scanner had no error, and the times
-- at which they were parsed and the feed was marked.
pub record Answer : Type 0 where
  pub lines : List Bytes
  pub complete : Bool
  pub parsed_at : ℕ
  pub marked_at : ℕ

abbrev pub feed_entry : Bytes → Bytes → Bytes → ThreatEntry
feed_entry ip category source = record {
  ip = ip;
  risk_level = codes "HIGH";
  category = category;
  source = source;
  first_seen = 0;
  last_seen = 0;
  hit_count = 0;
}

-- `line == "" || strings.HasPrefix(line, "#") || strings.HasPrefix(line, ";")`
unfoldable pub is_comment : Bytes → Bool
is_comment line = same line [] || has_prefix line (codes "#") || has_prefix line (codes ";")

-- The entry of the map for a line: the known one as seen again, or the new one.
abbrev pub seen : Option ThreatEntry → ThreatEntry → ℕ → ThreatEntry
seen none e now = record e { first_seen = now; last_seen = now }
seen (some known) e now = hit_entry known now

-- What an enabled feed with an address answers: `none` where the request fails or its status is
-- not 200.
unfoldable pub asked : (ThreatFeed → Option Answer) → ThreatFeed → Option Answer
asked fetch feed = if feed.enabled && not (same feed.url []) then fetch feed else none

-- The feed with its new time and count, if its lines were read to the end.
abbrev pub marked : ThreatFeed → Answer → ℕ → ThreatFeed
marked feed answer count =
    if answer.complete
    then record feed { last_update = answer.marked_at; entry_count = count }
    else feed

module _ {Ip Net : Type 0} (net : NetLib Ip Net) where
  -- The first field of a line as an address.
  unfoldable pub parse_address : List Bytes → Bytes → Option ThreatEntry
  parse_address [] source = none
  parse_address (ip ∷ others) source = elim (net.parse_ip ip) [
    | none ↦ none
    | some p ↦ some (feed_entry ip (codes "Threat Feed") source)
  ]

  unfoldable pub parse_range : List Bytes → Bytes → Option (ThreatEntry × Net)
  parse_range [] source = none
  parse_range (cidr ∷ others) source = elim (net.parse_cidr cidr) [
    | none ↦ none
    | some n ↦ some (feed_entry cidr (codes "Malicious Network") source, n)
  ]

  unfoldable pub is_range : Bytes → Bytes → Bool
  is_range line feed_type = contains line (codes "/") && same feed_type (codes "cidr_list")

  -- `parseEntry`, which also adds to the ranges.
  unfoldable pub parse_entry :
      ThreatIntel Net → Bytes → Bytes → Bytes → ThreatIntel Net × Option ThreatEntry
  parse_entry ti line source feed_type =
      if is_range line feed_type
      then elim (parse_range (fields line) source) [
        | none ↦ (ti, none)
        | some (e, n) ↦ (record ti { cidr_blocks = ti.cidr_blocks ++ n ∷ [] }, some e)
      ]
      else (ti, parse_address (fields line) source)

  -- One round of the loop of `parseFeed`, with the count.
  unfoldable pub parse_line : ThreatIntel Net → Bytes → ThreatFeed → ℕ → ThreatIntel Net × ℕ
  parse_line ti line feed now =
      if is_comment line
      then (ti, 0)
      else (let (ti', parsed) = parse_entry ti line feed.name feed.feed_type in
          elim parsed [
            | none ↦ (ti', 0)
            | some e ↦ (
              record ti' {
                blocked_ips =
                    insert e.ip (seen (lookup e.ip ti'.blocked_ips) e now) ti'.blocked_ips;
              },
              1,
            )
          ])

  unfoldable pub parse_feed : ThreatIntel Net → List Bytes → ThreatFeed → ℕ → ThreatIntel Net × ℕ
  parse_feed ti [] feed now = (ti, 0)
  parse_feed ti (raw ∷ lines) feed now =
      let (ti', n) = parse_line ti (trim_space raw) feed now in
      let (ti'', count) = parse_feed ti' lines feed now in (ti'', n + count)

  -- `fetchFeed`, and what the loop of `RefreshFeeds` does with its result.
  unfoldable pub refresh_feed :
      ThreatIntel Net → (ThreatFeed → Option Answer) → ThreatFeed → ThreatIntel Net × ThreatFeed
  refresh_feed ti fetch feed = elim (asked fetch feed) [
    | none ↦ (ti, feed)
    | some a ↦
        (let (parsed, count) = parse_feed ti a.lines feed a.parsed_at in
          (parsed, marked feed a count))
  ]

  -- The loop of `RefreshFeeds` over the feeds, which returns them as they are marked.
  unfoldable pub refresh_all :
      ThreatIntel Net
      → (ThreatFeed → Option Answer)
      → List ThreatFeed
      → ThreatIntel Net × List ThreatFeed
  refresh_all ti fetch [] = (ti, [])
  refresh_all ti fetch (feed ∷ feeds) =
      let (ti', feed') = refresh_feed ti fetch feed in
      let (ti'', feeds') = refresh_all ti' fetch feeds in (ti'', feed' ∷ feeds')

  unfoldable pub refresh_feeds :
      ThreatIntel Net → (ThreatFeed → Option Answer) → ℕ → ThreatIntel Net
  refresh_feeds ti fetch now =
      let (ti', feeds) = refresh_all (record ti { cidr_blocks = [] }) fetch ti.feeds in
      record ti' { feeds = feeds; last_update = now }

-- What `saveToDisk` writes, and what `loadFromDisk` restores of it.
unfoldable pub save_to_disk : {Net : Type 0} → ThreatIntel Net → Map ThreatEntry × ℕ
save_to_disk ti = (ti.blocked_ips, ti.last_update)

unfoldable pub load_from_disk :
    {Net : Type 0} → ThreatIntel Net → Map ThreatEntry × ℕ → ThreatIntel Net
load_from_disk ti (blocked, at) = record ti { blocked_ips = blocked; last_update = at }
