-- ===== src/GeoIp/Lookup.antt =====
-- A lookup, its cache, the decision on an address and the middleware.
use obsidian.Common.Map.{Map, insert, lookup}
use obsidian.Common.{
  ℕ, suc, Bool, true, false, not, ◌&&◌, List, [], ◌∷◌, Option, none, some, Bytes, codes, same,
  trim_space, if◌then◌else◌,
}
use obsidian.GeoIp.{
  Action, CountryRule, GeoIpInfo, GeoLib, Service, allow, block, monitor, new_info,
}
use obsidian.GeoIp.Country.{get_country_name, is_private_ip, lookup_fallback, with_score}
use obsidian.RateLimit.Http.{before_comma}
use obsidian.Security

-- What ip-api.com answers with status 200.
pub record IpApiResponse : Type 0 where
  pub status : Bytes
  pub country : Bytes
  pub country_code : Bytes
  pub proxy : Bool
  pub hosting : Bool

pub data Error : Type 0 where
  invalid_ip : Error

pub data Result (A : Type 0) : Type 0 where
  ok : A → Result A
  err : Error → Result A

pub record LookupResult : Type 0 where
  pub info : GeoIpInfo
  pub action : Action
  pub reason : Bytes
  pub blocked : Bool

-- `none` is a request that fails or an answer that does not decode.
unfoldable pub lookup_external : Bytes → Option IpApiResponse → Option GeoIpInfo
lookup_external ip answer = elim answer [
  | none ↦ none
  | some a ↦
      if same a.status (codes "success")
      then some (
          with_score (record (new_info ip a.country_code a.country) {
            is_proxy = a.proxy;
            is_datacenter = a.hosting;
          }))
      else none
]

-- A country that the service of ip-api.com names.
abbrev pub named : Option GeoIpInfo → Option GeoIpInfo
named none = none
named (some info) =
    if not (same info.country_code []) && not (same info.country_code (codes "XX"))
    then some info
    else none

abbrev pub count : Bytes → Map ℕ → Map ℕ
count code m = elim (lookup code m) [ none ↦ insert code 1 m | some n ↦ insert code (suc n) m ]

abbrev pub is_block : Action → Bool
is_block block = true
is_block allow = false
is_block monitor = false

abbrev pub cached : Service → Bytes → GeoIpInfo → Service
cached s ip info = record s { ip_cache = insert ip info s.ip_cache }

abbrev pub count_hit : Service → Service
count_hit s = record s { metrics = record s.metrics { cache_hits = suc s.metrics.cache_hits } }

abbrev pub count_miss : Service → Service
count_miss s = record s {
  metrics = record s.metrics {
    cache_misses = suc s.metrics.cache_misses;
    total_lookups = suc s.metrics.total_lookups;
  };
}

abbrev pub count_request : Service → Bytes → Service
count_request s code = record s {
  metrics = record s.metrics { requests_by_country = count code s.metrics.requests_by_country };
}

abbrev pub count_blocked : Service → Bytes → Service
count_blocked s code = record s {
  metrics = record s.metrics { blocked_by_country = count code s.metrics.blocked_by_country };
}

abbrev pub is_private_info : GeoIpInfo → Bool
is_private_info info =
    same info.country_code (codes "XX") && same info.country_name (codes "Private Network")

-- What the rule of the country says, or the mode without a rule.
unfoldable pub ruled : Service → Bytes → Action × Bytes
ruled s code = elim (lookup code s.country_rules) [
  | some r ↦ (r.action, r.reason)
  | none ↦
      if s.whitelist_mode
      then (block, codes "Country not in allowed list")
      else (s.config.default_action, [])
]

-- The action on an address with its reason.
unfoldable pub action_on : Service → GeoIpInfo → Action × Bytes
action_on s info =
    if is_private_info info then (allow, codes "Private network") else ruled s info.country_code

unfoldable pub add_blocked_country : Service → Bytes → Bytes → Service
add_blocked_country s code reason = record s {
  country_rules =
      insert code
        (record {
          country_code = code;
          country_name = get_country_name code;
          action = block;
          reason = reason;
        })
        s.country_rules;
}

unfoldable pub blocked_rules : Map CountryRule → List CountryRule
blocked_rules [] = []
blocked_rules ((k, r) ∷ rules) =
    let rest = blocked_rules rules in if is_block r.action then r ∷ rest else rest

unfoldable pub get_blocked_countries : Service → List CountryRule
get_blocked_countries s = blocked_rules s.country_rules

-- `extractIP`, with the headers X-Forwarded-For and X-Real-IP.
unfoldable pub extract_ip : Bytes → Bytes → Bytes → Bytes
extract_ip forwarded_for real_ip remote_addr =
    if not (same forwarded_for [])
    then trim_space (before_comma forwarded_for)
    else if not (same real_ip [])
    then real_ip
    else elim (Security.split_host_port remote_addr) [ none ↦ [] | some host ↦ host ]

module _ {Ip Net : Type 0} (lib : GeoLib Ip Net) where
  -- `Lookup`, given what ip-api.com answers for the address.
  unfoldable pub look_up : Service → Bytes → Option IpApiResponse → Service × Result GeoIpInfo
  look_up s ip answer = elim (lookup ip s.ip_cache) [
    | some info ↦ (count_hit s, ok info)
    | none ↦ elim (lib.net.parse_ip ip) [
      | none ↦ (count_miss s, err invalid_ip)
      | some p ↦
          let private = new_info ip (codes "XX") (codes "Private Network") in
          let fallback = lookup_fallback lib ip p in
          if is_private_ip lib p
          then (cached (count_miss s) ip private, ok private)
          else elim (named (lookup_external ip answer)) [
            | some info ↦ (cached (count_miss s) ip info, ok info)
            | none ↦ (cached (count_miss s) ip fallback, ok fallback)
          ]
    ]
  ]

  abbrev pub decide : Service → GeoIpInfo → Service × LookupResult
  decide s info =
      let (action, reason) = action_on s info in
      let s' = count_request s info.country_code in
      (
        if is_block action then count_blocked s' info.country_code else s',
        record { info = info; action = action; reason = reason; blocked = is_block action },
      )

  unfoldable pub should_block :
      Service → Bytes → Option IpApiResponse → Service × Result LookupResult
  should_block s ip answer =
      let (s', looked) = look_up s ip answer in
      elim looked [
        | err e ↦ (s', err e)
        | ok info ↦ (let (s'', result) = decide s' info in (s'', ok result))
      ]

  -- `Middleware`: whether the handlers are reached.
  unfoldable pub middleware :
      Service → Bytes → Bytes → Bytes → Option IpApiResponse → Service × Bool
  middleware s forwarded_for real_ip remote_addr answer =
      let (s', decided) = should_block s (extract_ip forwarded_for real_ip remote_addr) answer in
      elim decided [ err e ↦ (s', true) | ok result ↦ (s', not result.blocked) ]
