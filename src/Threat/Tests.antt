-- ===== src/Threat/Tests.antt =====
-- The threat intelligence on small inputs: an address is its text, a network the prefix of its
-- addresses.
use obsidian.Common.Map.{lookup}
use obsidian.Common.{◌≡◌, refl, true, List, [], ◌∷◌, none, some, arith, Bytes, codes, has_prefix}
use obsidian.Security.{NetLib}
use obsidian.Threat.{
  ThreatEntry, ThreatFeed, ThreatIntel, block_ip, check_ip, custom_source, in_ranges, ok,
}
use obsidian.Threat.Feeds.{Answer, asked, refresh_feeds}
use obsidian.Threat.Held.{Op, block_ip-run, hit, refresh, run, unblock}
use obsidian.Threat.Lost.{refresh_feeds_silent}

abbrev texts : NetLib Bytes Bytes
texts = record {
  parse_ip = λ s. some s;
  parse_cidr = λ s. some s;
  net_contains = λ n s. has_prefix s (codes "10.");
}

abbrev drop : ThreatFeed
drop = record {
  name = codes "Spamhaus DROP";
  url = codes "https://x";
  enabled = true;
  last_update = 0;
  entry_count = 0;
  feed_type = codes "cidr_list";
}

abbrev intel : ThreatIntel Bytes
intel = record {
  blocked_ips = [];
  cidr_blocks = codes "10./8" ∷ [];
  feeds = drop ∷ [];
  last_update = 0;
}

abbrev answer : Answer
answer = record {
  lines = codes " 10./8 ; SBL1" ∷ [];
  complete = true;
  parsed_at = 5;
  marked_at = 6;
}

abbrev calls : List Op
calls =
    refresh (λ f. some answer) 8
    ∷ hit (codes "192.0.2.1") 9
    ∷ unblock (codes "10./8")
    ∷ refresh (λ f. none) 10
    ∷ []

blocked : (block_ip texts intel (codes "192.0.2.1") (codes "Scanner") 7).1 ≡ ok
unfolding block_ip
blocked = refl

block_ip-run_example :
    (e : ThreatEntry) × (check_ip texts
        (run texts (block_ip texts intel (codes "192.0.2.1") (codes "Scanner") 7).0 calls)
        (codes "192.0.2.1")
      ≡ some e)
    × (e.source ≡ custom_source)
block_ip-run_example =
    block_ip-run texts intel (codes "192.0.2.1") (codes "Scanner") 7 calls blocked
      (tt, (tt, ((λ e. ground arith), (tt, tt))))

silent : (feed : ThreatFeed) → asked (λ f. none) feed ≡ none
unfolding asked
silent feed = ground arith

refresh_feeds_silent_example :
    check_ip texts (refresh_feeds texts intel (λ f. none) 7) (codes "10.1.1.1") ≡ none
unfolding lookup
refresh_feeds_silent_example =
    refresh_feeds_silent texts intel (λ f. none) 7 (codes "10.1.1.1") silent refl

in_drop : in_ranges texts intel.cidr_blocks (codes "10.1.1.1") ≡ true
unfolding in_ranges has_prefix
in_drop = refl
