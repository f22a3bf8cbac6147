-- ===== src/GeoIp/Tests.antt =====
-- The service on small inputs. An address is its text.
use obsidian.Common.Map.{lookup}
use obsidian.Common.{
  ◌≡◌, ◌&&◌, refl, true, false, [], ◌∷◌, none, some, Bytes, codes, same, has_prefix, trim_space,
  trim_left, trim_right,
}
use obsidian.GeoIp.{
  default_config, GeoIpInfo, GeoLib, Service, new_info, new_service, remove_blocked_country,
}
use obsidian.GeoIp.Country.{calculate_threat_score, country_of_octets, in_block, is_private_ip}
use obsidian.GeoIp.Decided.{
  Blocks, middleware-is_private_ip, remove_blocked_country-should_block, should_block-Blocks,
}
use obsidian.GeoIp.Lookup.{
  IpApiResponse, LookupResult, extract_ip, is_private_info, middleware, look_up, lookup_external,
  ok, should_block,
}
use obsidian.RateLimit.Http.{before_comma}

abbrev texts : GeoLib Bytes Bytes
texts = record {
  net = record {
    parse_ip = λ s. some s;
    parse_cidr = λ s. some s;
    net_contains = λ n s. same n (codes "127.0.0.0/8") && has_prefix s (codes "127.");
  };
  to4 = λ s. some (176, 1);
}

-- Only Germany is allowed.
abbrev german : Service
german = new_service (record (default_config []) { allowed_countries = codes "DE" ∷ [] })

abbrev berlin : IpApiResponse
berlin = record {
  status = codes "success";
  country = codes "Germany";
  country_code = codes "DE";
  proxy = true;
  hosting = false;
}

abbrev client : Bytes
client = codes "203.0.113.9"

abbrev found : GeoIpInfo
found = record (new_info client (codes "DE") (codes "Germany")) {
  is_proxy = true;
  threat_score = 15;
}

-- Of the first octets that the last cases name for Russia, only 176 gets there.
russian : country_of_octets 176 0 ≡ codes "RU"
unfolding country_of_octets
russian = refl

russian_lost : country_of_octets 46 0 ≡ codes "US"
unfolding country_of_octets
russian_lost = refl

claimed :
    extract_ip (codes "127.0.0.1, 203.0.113.9") [] (codes "203.0.113.9:80") ≡ codes "127.0.0.1"
unfolding extract_ip before_comma trim_space trim_left trim_right same
claimed = refl

looked_up : (look_up texts german client (some berlin)).1 ≡ ok found
unfolding look_up new_service lookup is_private_ip in_block same has_prefix lookup_external
    calculate_threat_score
looked_up = refl

should_block-Blocks_example :
    (result : LookupResult) × ((should_block texts german client (some berlin)).1 ≡ ok result)
    × (result.info ≡ found)
    × ((result.blocked ≡ true → Blocks german found)
        × (Blocks german found → result.blocked ≡ true))
should_block-Blocks_example = should_block-Blocks texts german client (some berlin) found looked_up

whitelisted : german.whitelist_mode ≡ true
unfolding new_service
whitelisted = refl

public_client : is_private_info found ≡ false
unfolding same
public_client = refl

remove_blocked_country-should_block_example :
    (result : LookupResult) × ((should_block texts
        (remove_blocked_country german (codes "DE"))
        client
        (some berlin)).1
      ≡ ok result)
    × (result.info ≡ found)
    × (result.blocked ≡ true)
remove_blocked_country-should_block_example =
    remove_blocked_country-should_block texts german client (some berlin) found whitelisted
      looked_up public_client

loopback_is_private : is_private_ip texts (codes "127.0.0.1") ≡ true
unfolding is_private_ip in_block same has_prefix
loopback_is_private = refl

two_named : same (codes "127.0.0.1,x") [] ≡ false
unfolding same
two_named = refl

nothing_cached : lookup (trim_space (before_comma (codes "127.0.0.1,x"))) german.ip_cache ≡ none
unfolding new_service lookup
nothing_cached = refl

parsed :
    texts.net.parse_ip (trim_space (before_comma (codes "127.0.0.1,x"))) ≡ some (codes "127.0.0.1")
unfolding before_comma trim_space trim_left trim_right same
parsed = refl

middleware-is_private_ip_example :
    (middleware texts german (codes "127.0.0.1,x") [] (codes "203.0.113.9:80") none).1 ≡ true
middleware-is_private_ip_example =
    middleware-is_private_ip texts german (codes "127.0.0.1,x") [] (codes "203.0.113.9:80") none
      (codes "127.0.0.1") two_named nothing_cached parsed loopback_is_private
