-- ===== src/GeoIp.antt =====
-- internal/app/geoip/geoip.go: blocking by the country of an address. `GeoLib` stands for the
-- addresses of package net; what ip-api.com answers is an argument of a lookup. The coordinates of
-- an address, its region, city, zone and provider are left out, as nothing reads them.
pub mod Country
pub mod Lookup
pub mod Decided
mod Tests
use obsidian.Common.Map.{Map, delete, insert}
use obsidian.Common.{ℕ, Bool, true, false, List, [], ◌∷◌, Option, Bytes, codes}
use obsidian.Security.{NetLib}

pub record GeoLib (Ip Net : Type 0) : Type 0 where
  pub net : NetLib Ip Net
  -- the first two octets of an IPv4 address
  pub to4 : Ip → Option (ℕ × ℕ)

pub data Action : Type 0 where
  allow block monitor : Action

pub record CountryRule : Type 0 where
  pub country_code : Bytes
  pub country_name : Bytes
  pub action : Action
  pub reason : Bytes

-- `enable_monitoring` is read nowhere, as in the source, although its comment promises that it logs
-- lookups without blocking; neither is `database_path`.
pub record Config : Type 0 where
  pub database_path : Bytes
  pub enable_monitoring : Bool
  pub default_action : Action
  pub blocked_countries : List Bytes
  pub allowed_countries : List Bytes

pub record GeoIpInfo : Type 0 where
  pub ip : Bytes
  pub country_code : Bytes
  pub country_name : Bytes
  pub is_proxy : Bool
  pub is_vpn : Bool
  pub is_tor : Bool
  pub is_datacenter : Bool
  pub threat_score : ℕ

pub record Metrics : Type 0 where
  pub total_lookups : ℕ
  pub cache_hits : ℕ
  pub cache_misses : ℕ
  pub blocked_by_country : Map ℕ
  pub requests_by_country : Map ℕ

pub record Service : Type 0 where
  pub config : Config
  pub country_rules : Map CountryRule
  pub ip_cache : Map GeoIpInfo
  pub metrics : Metrics
  pub whitelist_mode : Bool

abbrev pub new_info : Bytes → Bytes → Bytes → GeoIpInfo
new_info ip code name = record {
  ip = ip;
  country_code = code;
  country_name = name;
  is_proxy = false;
  is_vpn = false;
  is_tor = false;
  is_datacenter = false;
  threat_score = 0;
}

abbrev pub block_rule : Bytes → CountryRule
block_rule code = record {
  country_code = code;
  country_name = [];
  action = block;
  reason = codes "Country blocked by policy";
}

abbrev pub allow_rule : Bytes → CountryRule
allow_rule code = record { country_code = code; country_name = []; action = allow; reason = [] }

unfoldable pub add_rules : (Bytes → CountryRule) → List Bytes → Map CountryRule → Map CountryRule
add_rules rule [] rules = rules
add_rules rule (code ∷ codes') rules = add_rules rule codes' (insert code (rule code) rules)

abbrev pub is_nonempty : List Bytes → Bool
is_nonempty [] = false
is_nonempty (c ∷ cs) = true

-- `DefaultConfig`, given the environment's GEOIP_DATABASE_PATH.
abbrev pub default_config : Bytes → Config
default_config path = record {
  database_path = path;
  enable_monitoring = true;
  default_action = allow;
  blocked_countries = [];
  allowed_countries = [];
}

unfoldable pub new_service : Config → Service
new_service cfg = record {
  config = cfg;
  country_rules =
      add_rules allow_rule cfg.allowed_countries (add_rules block_rule cfg.blocked_countries []);
  ip_cache = [];
  metrics = record {
    total_lookups = 0;
    cache_hits = 0;
    cache_misses = 0;
    blocked_by_country = [];
    requests_by_country = [];
  };
  whitelist_mode = is_nonempty cfg.allowed_countries;
}

unfoldable pub remove_blocked_country : Service → Bytes → Service
remove_blocked_country s code = record s { country_rules = delete code s.country_rules }

unfoldable pub clear_cache : Service → Service
clear_cache s = record s { ip_cache = [] }
