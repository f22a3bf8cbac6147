-- ===== src/Threat/Held.antt =====
-- Runs of the threat intelligence: what an administrator blocks stays blocked.
use obsidian.Common.Map.{insert, lookup, lookup-delete, lookup-insert}
use obsidian.Common.{
  ℕ, ◌≡◌, ◌≢◌, refl, ap, ◌∙◌, inl, inr, List, [], ◌∷◌, Option, some, arith, All, Bytes, fields,
  same, same_iff, same_refl, trim_space, Bool-cases, Option-cases,
}
use obsidian.Security.{NetLib}
use obsidian.Threat.{
  ThreatEntry, ThreatFeed, ThreatIntel, block_ip, check_ip, custom_entry, custom_source, hit_entry,
  ok, record_hit, unblock_ip,
}
use obsidian.Threat.Feeds.{
  Answer, asked, is_comment, parse_entry, parse_feed, parse_line, parse_range, refresh_all,
  refresh_feed, refresh_feeds, seen,
}

pub data Op : Type 0 where
  refresh : (ThreatFeed → Option Answer) → ℕ → Op
  hit : Bytes → ℕ → Op
  block : Bytes → Bytes → ℕ → Op
  unblock : Bytes → Op

-- The call does not unblock the address.
abbrev pub Spares : Bytes → Op → Type 0
Spares ip (unblock j) = j ≢ ip
Spares ip _ = Unit

-- The address has an entry of the administrator.
abbrev pub IsCustom : {Net : Type 0} → ThreatIntel Net → Bytes → Type 0
IsCustom ti ip =
    (e : ThreatEntry) × (lookup ip ti.blocked_ips ≡ some e) × (e.source ≡ custom_source)

module _ {Ip Net : Type 0} (net : NetLib Ip Net) where
  unfoldable pub step : ThreatIntel Net → Op → ThreatIntel Net
  step ti (refresh fetch now) = refresh_feeds net ti fetch now
  step ti (hit ip now) = record_hit ti ip now
  step ti (block ip category now) = (block_ip net ti ip category now).0
  step ti (unblock ip) = (unblock_ip ti ip).0

  unfoldable pub run : ThreatIntel Net → List Op → ThreatIntel Net
  run ti [] = ti
  run ti (op ∷ ops) = run (step ti op) ops

  -- Writing another hit, or a custom entry, over an entry of the administrator leaves one.
  insert-IsCustom :
      (ti : ThreatIntel Net) (key ip : Bytes) (e : ThreatEntry)
      → ((known : ThreatEntry)
          → lookup key ti.blocked_ips ≡ some known
          → known.source ≡ custom_source
          → e.source ≡ custom_source)
      → IsCustom ti ip
      → IsCustom (record ti { blocked_ips = insert key e ti.blocked_ips }) ip
  insert-IsCustom ti key ip e keeps (x, h, c) = elim (Bool-cases (same key ip)) [
    | inr f ↦ (x, ground (arith, lookup-insert key ip e ti.blocked_ips, f, h), c)
    | inl f ↦ (
      e,
      ground (arith, lookup-insert key ip e ti.blocked_ips, f),
      keeps x (ap (λ k. lookup k ti.blocked_ips) ((same_iff key ip).0 f) ∙ h) c,
    )
  ]

  parse_entry-blocked_ips :
      (ti : ThreatIntel Net) (line source feed_type : Bytes)
      → (parse_entry net ti line source feed_type).0.blocked_ips ≡ ti.blocked_ips
  unfolding parse_entry
  parse_entry-blocked_ips ti line source feed_type =
      elim (Option-cases (parse_range net (fields line) source)) [
        | inl f ↦ ground (arith, f)
        | inr ((entry, n), f) ↦ ground (arith, f)
      ]

  parse_line-IsCustom :
      (ti : ThreatIntel Net) (line : Bytes) (feed : ThreatFeed) (now : ℕ) (ip : Bytes)
      → IsCustom ti ip
      → IsCustom (parse_line net ti line feed now).0 ip
  unfolding parse_line
  parse_line-IsCustom ti line feed now ip (x, h, c) = elim (Bool-cases (is_comment line)) [
    | inl e ↦ (x, ground (arith, e, h), c)
    | inr e ↦
        let parsed = parse_entry net ti line feed.name feed.feed_type in
        let same_ips = parse_entry-blocked_ips ti line feed.name feed.feed_type in
        let custom : IsCustom parsed.0 ip = (x, ap (lookup ip) same_ips ∙ h, c) in
        elim (Option-cases (parsed.1)) [
          | inl f ↦ (x, ground (arith, e, f, custom.1), c)
          | inr (entry, f) ↦
              let (y, g, d) =
                insert-IsCustom parsed.0 entry.ip ip
                  (seen (lookup entry.ip parsed.0.blocked_ips) entry now)
                  (λ known k s. ground (arith, k, s)) custom in
              (y, ground (arith, e, f, g), d)
        ]
  ]

  parse_feed-IsCustom :
      (ti : ThreatIntel Net) (lines : List Bytes) (feed : ThreatFeed) (now : ℕ) (ip : Bytes)
      → IsCustom ti ip
      → IsCustom (parse_feed net ti lines feed now).0 ip
  unfolding parse_feed
  parse_feed-IsCustom ti [] feed now ip h = h
  parse_feed-IsCustom ti (raw ∷ lines) feed now ip h =
      parse_feed-IsCustom (parse_line net ti (trim_space raw) feed now).0 lines feed now ip
        (parse_line-IsCustom ti (trim_space raw) feed now ip h)

  refresh_feed-IsCustom :
      (ti : ThreatIntel Net) (fetch : ThreatFeed → Option Answer) (feed : ThreatFeed) (ip : Bytes)
      → IsCustom ti ip
      → IsCustom (refresh_feed net ti fetch feed).0 ip
  unfolding refresh_feed
  refresh_feed-IsCustom ti fetch feed ip h = elim (Option-cases (asked fetch feed)) [
    | inl e ↦ rw (e, refresh_feed) h
    | inr (a, e) ↦ rw (e, refresh_feed) (parse_feed-IsCustom ti a.lines feed a.parsed_at ip h)
  ]

  refresh_all-IsCustom :
      (ti : ThreatIntel Net) (fetch : ThreatFeed → Option Answer) (feeds : List ThreatFeed)
      (ip : Bytes)
      → IsCustom ti ip
      → IsCustom (refresh_all net ti fetch feeds).0 ip
  unfolding refresh_all
  refresh_all-IsCustom ti fetch [] ip h = h
  refresh_all-IsCustom ti fetch (feed ∷ feeds) ip h =
      refresh_all-IsCustom (refresh_feed net ti fetch feed).0 fetch feeds ip
        (refresh_feed-IsCustom ti fetch feed ip h)

  record_hit-IsCustom :
      (ti : ThreatIntel Net) (j ip : Bytes) (now : ℕ)
      → IsCustom ti ip
      → IsCustom (record_hit ti j now) ip
  unfolding record_hit
  record_hit-IsCustom ti j ip now h = elim (Option-cases (lookup j ti.blocked_ips)) [
    | inl e ↦ rw (e, record_hit) h
    | inr (known, e) ↦
        rw (e, record_hit)
          (insert-IsCustom ti j ip (hit_entry known now) (λ k f s. ground (arith, e, f, s)) h)
  ]

  block_ip-IsCustom :
      (ti : ThreatIntel Net) (j category ip : Bytes) (now : ℕ)
      → IsCustom ti ip
      → IsCustom (block_ip net ti j category now).0 ip
  unfolding block_ip
  block_ip-IsCustom ti j category ip now h = elim (Option-cases (net.parse_ip j)) [
    | inl e ↦ rw (e, block_ip) h
    | inr (p, e) ↦
        rw (e, block_ip) (insert-IsCustom ti j ip (custom_entry j category now) (λ k f s. refl) h)
  ]

  unblock_ip-IsCustom :
      (ti : ThreatIntel Net) (j ip : Bytes)
      → j ≢ ip
      → IsCustom ti ip
      → IsCustom (unblock_ip ti j).0 ip
  unfolding unblock_ip
  unblock_ip-IsCustom ti j ip other (x, h, c) =
      (x, ground (arith, h, other, lookup-delete j ip ti.blocked_ips, same_iff j ip), c)

  step-IsCustom :
      (ti : ThreatIntel Net) (op : Op) (ip : Bytes)
      → Spares ip op
      → IsCustom ti ip
      → IsCustom (step ti op) ip
  unfolding step refresh_feeds
  step-IsCustom ti (refresh fetch now) ip s h =
      refresh_all-IsCustom (record ti { cidr_blocks = [] }) fetch ti.feeds ip h
  step-IsCustom ti (hit j now) ip s h = record_hit-IsCustom ti j ip now h
  step-IsCustom ti (block j category now) ip s h = block_ip-IsCustom ti j category ip now h
  step-IsCustom ti (unblock j) ip s h = unblock_ip-IsCustom ti j ip s h

  run-IsCustom :
      (ti : ThreatIntel Net) (ops : List Op) (ip : Bytes)
      → All (Spares ip) ops
      → IsCustom ti ip
      → IsCustom (run ti ops) ip
  unfolding run
  run-IsCustom ti [] ip s h = h
  run-IsCustom ti (op ∷ ops) ip s h =
      run-IsCustom (step ti op) ops ip s.1 (step-IsCustom ti op ip s.0 h)

  -- An address that was blocked by hand is blocked, with an entry of the custom list, after any
  -- refreshes, hits, other blocks and unblocks, whatever the feeds answer, as long as it is not
  -- unblocked itself.
  pub block_ip-run :
      (ti : ThreatIntel Net) (ip category : Bytes) (now : ℕ) (ops : List Op)
      → (block_ip net ti ip category now).1 ≡ ok
      → All (Spares ip) ops
      → (e : ThreatEntry) × (check_ip net (run (block_ip net ti ip category now).0 ops) ip ≡ some e)
        × (e.source ≡ custom_source)
  unfolding block_ip check_ip
  block_ip-run ti ip category now ops h s = elim (Option-cases (net.parse_ip ip)) [
    | inl e ↦ absurd (ground (arith, e, h))
    | inr (p, e) ↦
        let start : IsCustom (block_ip net ti ip category now).0 ip = (
          custom_entry ip category now,
          ground (
            arith,
            e,
            same_refl ip,
            lookup-insert ip ip (custom_entry ip category now) ti.blocked_ips,
          ),
          refl,
        ) in
        let (x, found, custom) = run-IsCustom (block_ip net ti ip category now).0 ops ip s start in
        (x, ground (arith, found), custom)
  ]
