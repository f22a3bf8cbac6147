-- ===== src/GeoIp/Decided.antt =====
-- Which addresses are blocked, and what the cache keeps.
use obsidian.Common.Map.{lookup, lookup-delete, lookup-insert}
use obsidian.Common.{
  ◌≡◌, refl, inl, inr, ap, ◌∙◌, ◌⊎◌, true, false, Option, none, some, arith, Option-cases, Bytes,
  codes, same, same_iff, trim_space, [],
}
use obsidian.GeoIp.{
  Action, CountryRule, GeoIpInfo, GeoLib, Service, allow, block, monitor, remove_blocked_country,
  new_info,
}
use obsidian.GeoIp.Country.{is_private_ip, lookup_fallback}
use obsidian.GeoIp.Lookup.{
  IpApiResponse, LookupResult, decide, action_on, is_block, is_private_info, look_up, ok,
  extract_ip, middleware, ruled, should_block,
}
use obsidian.RateLimit.Http.{before_comma}

-- Why an address is blocked: it is not private, and the rule of its country blocks, or it has none
-- and the mode or the default action blocks.
abbrev pub Blocks : Service → GeoIpInfo → Type 0
Blocks s info =
    (is_private_info info ≡ false)
    × (((r : CountryRule) × (lookup info.country_code s.country_rules ≡ some r)
          × (r.action ≡ block))
        ⊎ ((lookup info.country_code s.country_rules ≡ none)
            × ((s.whitelist_mode ≡ true) ⊎ (s.config.default_action ≡ block))))

is_block_iff : (a : Action) → (is_block a ≡ true → a ≡ block) × (a ≡ block → is_block a ≡ true)
is_block_iff allow = ground arith
is_block_iff block = ground arith
is_block_iff monitor = ground arith

action_on-Blocks :
    (s : Service) (info : GeoIpInfo)
    → (is_block (action_on s info).0 ≡ true → Blocks s info)
      × (Blocks s info → is_block (action_on s info).0 ≡ true)
unfolding action_on ruled
action_on-Blocks s info = elim (Option-cases (lookup info.country_code s.country_rules)) [
  | inl e ↦ ground (arith, e, is_block_iff s.config.default_action)
  | inr (r, e) ↦ ground (arith, e, is_block_iff r.action)
]

module _ {Ip Net : Type 0} (lib : GeoLib Ip Net) where
  look_up-ip_cache :
      (s : Service) (ip : Bytes) (answer : Option IpApiResponse) (info : GeoIpInfo)
      → (look_up lib s ip answer).1 ≡ ok info
      → lookup ip (look_up lib s ip answer).0.ip_cache ≡ some info
  unfolding look_up
  look_up-ip_cache s ip answer info h = elim (Option-cases (lookup ip s.ip_cache)) [
    | inr (i, e) ↦ ground (arith, e, h)
    | inl e ↦ elim (Option-cases (lib.net.parse_ip ip)) [
      | inl bad ↦ ground (arith, e, bad, h)
      | inr (p, good) ↦ ground (
        arith,
        e,
        good,
        h,
        same_iff ip ip,
        lookup-insert ip ip (new_info ip (codes "XX") (codes "Private Network")) s.ip_cache,
        lookup-insert ip ip (lookup_fallback lib ip p) s.ip_cache,
        lookup-insert ip ip info s.ip_cache,
      )
    ]
  ]

  -- An address that is looked up gets the same answer again, whatever ip-api.com answers then.
  pub look_up-look_up :
      (s : Service) (ip : Bytes) (answer later : Option IpApiResponse) (info : GeoIpInfo)
      → (look_up lib s ip answer).1 ≡ ok info
      → (look_up lib (look_up lib s ip answer).0 ip later).1 ≡ ok info
  unfolding look_up
  look_up-look_up s ip answer later info h = rw (look_up, look_up-ip_cache s ip answer info h) refl

  look_up-action_on :
      (s : Service) (ip : Bytes) (answer : Option IpApiResponse) (info : GeoIpInfo)
      → action_on (look_up lib s ip answer).0 info ≡ action_on s info
  unfolding look_up action_on ruled
  look_up-action_on s ip answer info = ground arith

  -- A lookup that answers is decided, and the address is blocked exactly when `Blocks` holds of it:
  -- it is not private, and the rule of its country blocks, or it has none and the mode or the default
  -- action blocks. Whether `EnableMonitoring` is set, which by its comment never blocks, plays no part.
  pub should_block-Blocks :
      (s : Service) (ip : Bytes) (answer : Option IpApiResponse) (info : GeoIpInfo)
      → (look_up lib s ip answer).1 ≡ ok info
      → (result : LookupResult) × ((should_block lib s ip answer).1 ≡ ok result)
        × (result.info ≡ info)
        × ((result.blocked ≡ true → Blocks s info) × (Blocks s info → result.blocked ≡ true))
  unfolding should_block
  should_block-Blocks s ip answer info h =
      rw (h, should_block, look_up-action_on s ip answer info)
        ((decide lib s info).1, refl, refl, action_on-Blocks s info)

  look_up-remove_blocked_country :
      (s : Service) (ip code : Bytes) (answer : Option IpApiResponse)
      → (look_up lib (remove_blocked_country s code) ip answer).1 ≡ (look_up lib s ip answer).1
  unfolding look_up remove_blocked_country
  look_up-remove_blocked_country s ip code answer = ground arith

  -- In the mode with a list of allowed countries, removing a country from the block list blocks its
  -- public addresses.
  pub remove_blocked_country-should_block :
      (s : Service) (ip : Bytes) (answer : Option IpApiResponse) (info : GeoIpInfo)
      → s.whitelist_mode ≡ true
      → (look_up lib s ip answer).1 ≡ ok info
      → is_private_info info ≡ false
      → (result : LookupResult) × ((should_block lib
            (remove_blocked_country s info.country_code)
            ip
            answer).1
          ≡ ok result)
        × (result.info ≡ info)
        × (result.blocked ≡ true)
  unfolding remove_blocked_country
  remove_blocked_country-should_block s ip answer info mode h public =
      let removed = remove_blocked_country s info.country_code in
      let decided =
        should_block-Blocks removed ip answer info
          (look_up-remove_blocked_country s ip info.country_code answer ∙ h) in
      let no_rule : lookup info.country_code removed.country_rules ≡ none = ground (
        arith,
        lookup-delete info.country_code info.country_code s.country_rules,
        same_iff info.country_code info.country_code,
      ) in
      (decided.0, decided.1, decided.2, decided.3.1 (public, inr (no_rule, inl mode)))

  look_up-is_private_ip :
      (s : Service) (ip : Bytes) (answer : Option IpApiResponse) (p : Ip)
      → lookup ip s.ip_cache ≡ none
      → lib.net.parse_ip ip ≡ some p
      → is_private_ip lib p ≡ true
      → (look_up lib s ip answer).1 ≡ ok (new_info ip (codes "XX") (codes "Private Network"))
  unfolding look_up
  look_up-is_private_ip s ip answer p fresh parsed private =
      rw (fresh, parsed, private, look_up) refl

  should_block-is_private_ip :
      (s : Service) (ip : Bytes) (answer : Option IpApiResponse) (p : Ip)
      → lookup ip s.ip_cache ≡ none
      → lib.net.parse_ip ip ≡ some p
      → is_private_ip lib p ≡ true
      → (should_block lib s ip answer).1
        ≡ ok (decide lib s (new_info ip (codes "XX") (codes "Private Network"))).1
  unfolding should_block look_up action_on same
  should_block-is_private_ip s ip answer p fresh parsed private =
      rw (look_up-is_private_ip s ip answer p fresh parsed private, should_block) refl

  -- Whoever puts a private address in front of the header X-Forwarded-For is passed on, from whatever
  -- address and with whatever rules, if the cache holds nothing of that private address.
  pub middleware-is_private_ip :
      (s : Service) (forwarded_for real_ip remote_addr : Bytes) (answer : Option IpApiResponse)
      (p : Ip)
      → same forwarded_for [] ≡ false
      → lookup (trim_space (before_comma forwarded_for)) s.ip_cache ≡ none
      → lib.net.parse_ip (trim_space (before_comma forwarded_for)) ≡ some p
      → is_private_ip lib p ≡ true
      → (middleware lib s forwarded_for real_ip remote_addr answer).1 ≡ true
  unfolding middleware extract_ip action_on same
  middleware-is_private_ip s forwarded_for real_ip remote_addr answer p given fresh parsed private =
      let client : extract_ip forwarded_for real_ip remote_addr
          ≡ trim_space (before_comma forwarded_for) =
        rw (given, extract_ip) refl in
      let found =
        should_block-is_private_ip s (trim_space (before_comma forwarded_for)) answer p fresh parsed
          private in
      rw (ap (λ ip. (should_block lib s ip answer).1) client ∙ found, middleware) refl
