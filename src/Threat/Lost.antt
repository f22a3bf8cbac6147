-- ===== src/Threat/Lost.antt =====
-- The ranges of the threat intelligence when feeds fail, when one is unblocked, and on disk.
use obsidian.Common.Map.{lookup, is_some}
use obsidian.Common.{
  ◌≡◌, refl, true, List, [], ◌∷◌, Option, none, some, arith, Bytes, inl, inr, Option-cases, ℕ,
}
use obsidian.Security.{NetLib}
use obsidian.Threat.{ThreatFeed, ThreatIntel, check_ip, in_ranges, unblock_ip}
use obsidian.Threat.Feeds.{Answer, asked, refresh_all, refresh_feed, refresh_feeds}

module _ {Ip Net : Type 0} (net : NetLib Ip Net) where
  refresh_all_silent :
      (ti : ThreatIntel Net) (fetch : ThreatFeed → Option Answer) (feeds : List ThreatFeed)
      → ((feed : ThreatFeed) → asked fetch feed ≡ none)
      → (refresh_all net ti fetch feeds).0 ≡ ti
  unfolding refresh_all refresh_feed
  refresh_all_silent ti fetch [] h = refl
  refresh_all_silent ti fetch (feed ∷ feeds) h =
      ground (arith, h feed, refresh_all_silent ti fetch feeds h)

  -- A refresh in which no feed answers drops every range: an address without an entry of its own is
  -- not blocked after it, in whatever range it was before.
  pub refresh_feeds_silent :
      (ti : ThreatIntel Net) (fetch : ThreatFeed → Option Answer) (now : ℕ) (ip : Bytes)
      → ((feed : ThreatFeed) → asked fetch feed ≡ none)
      → lookup ip ti.blocked_ips ≡ none
      → check_ip net (refresh_feeds net ti fetch now) ip ≡ none
  unfolding refresh_feeds check_ip in_ranges
  refresh_feeds_silent ti fetch now ip h l =
      let kept = refresh_all_silent (record ti { cidr_blocks = [] }) fetch ti.feeds h in
      elim (Option-cases (net.parse_ip ip)) [
        | inl e ↦ ground (arith, kept, l, e)
        | inr (p, e) ↦ ground (arith, kept, l, e)
      ]

  -- Whatever entry is unblocked, an address of a range stays blocked: the entry of a range goes, the
  -- range does not.
  pub unblock_ip-check_ip :
      (ti : ThreatIntel Net) (cidr ip : Bytes) (p : Ip)
      → net.parse_ip ip ≡ some p
      → in_ranges net ti.cidr_blocks p ≡ true
      → is_some (check_ip net (unblock_ip ti cidr).0 ip) ≡ true
  unfolding unblock_ip check_ip
  unblock_ip-check_ip ti cidr ip p e h =
      elim (Option-cases (lookup ip (unblock_ip ti cidr).0.blocked_ips)) [
        | inl l ↦ ground (arith, l, e, h)
        | inr (x, l) ↦ ground (arith, l)
      ]
