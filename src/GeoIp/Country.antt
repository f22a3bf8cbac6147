-- ===== src/GeoIp/Country.antt =====
-- The country of an address without the service of ip-api.com, and the threat score.
use obsidian.Common.Map.{Map, lookup}
use obsidian.Common.{
  ℕ, ◌+◌, Bool, false, ◌&&◌, ◌||◌, leb, ltb, ◌==◌, List, [], ◌∷◌, none, some, Bytes, codes, any,
  if◌then◌else◌,
}
use obsidian.GeoIp.{GeoIpInfo, GeoLib, new_info}

unfoldable pub select_european_country : ℕ → Bytes
select_european_country octet =
    if ltb octet 50
    then codes "DE"
    else if ltb octet 100
    then codes "FR"
    else if ltb octet 150
    then codes "GB"
    else if ltb octet 200
    then codes "NL"
    else codes "EU"

unfoldable pub select_asian_country : ℕ → Bytes
select_asian_country octet =
    if ltb octet 50
    then codes "CN"
    else if ltb octet 100
    then codes "JP"
    else if ltb octet 150
    then codes "KR"
    else if ltb octet 200
    then codes "IN"
    else codes "SG"

unfoldable pub select_latin_country : ℕ → Bytes
select_latin_country octet =
    if ltb octet 100
    then codes "BR"
    else if ltb octet 150
    then codes "MX"
    else if ltb octet 200
    then codes "AR"
    else codes "CO"

-- `low <= octet && octet <= high`
abbrev pub between : ℕ → ℕ → ℕ → Bool
between low high octet = leb low octet && leb octet high

-- The switch of `determineCountry` on the first two octets.
unfoldable pub country_of_octets : ℕ → ℕ → Bytes
country_of_octets first second =
    if between 3 76 first
    then codes "US"
    else if first == 99 || first == 100
    then codes "US"
    else if first == 104
    then codes "US"
    else if first == 2
    then codes "EU"
    else if between 77 95 first
    then select_european_country second
    else if between 109 115 first
    then select_european_country second
    else if between 1 2 first
    then codes "CN"
    else if between 110 126 first
    then select_asian_country second
    else if between 163 175 first
    then select_asian_country second
    else if between 202 223 first
    then select_asian_country second
    else if between 41 42 first
    then codes "ZA"
    else if first == 105
    then codes "ZA"
    else if between 177 191 first
    then select_latin_country second
    else if first == 200 || first == 201
    then select_latin_country second
    else if first == 1 || first == 14 || first == 27
    then codes "AU"
    else if first == 101
    then codes "AU"
    else if first == 5 || first == 31 || first == 37
    then codes "RU"
    else if first == 46 || first == 62 || first == 78
    then codes "RU"
    else if first == 176 || first == 178
    then codes "RU"
    else codes "XX"

abbrev pub countries : Map Bytes
countries =
    (codes "US", codes "United States")
    ∷ (codes "CA", codes "Canada")
    ∷ (codes "MX", codes "Mexico")
    ∷ (codes "GB", codes "United Kingdom")
    ∷ (codes "DE", codes "Germany")
    ∷ (codes "FR", codes "France")
    ∷ (codes "ES", codes "Spain")
    ∷ (codes "IT", codes "Italy")
    ∷ (codes "NL", codes "Netherlands")
    ∷ (codes "BE", codes "Belgium")
    ∷ (codes "CH", codes "Switzerland")
    ∷ (codes "AT", codes "Austria")
    ∷ (codes "PL", codes "Poland")
    ∷ (codes "SE", codes "Sweden")
    ∷ (codes "NO", codes "Norway")
    ∷ (codes "DK", codes "Denmark")
    ∷ (codes "FI", codes "Finland")
    ∷ (codes "IE", codes "Ireland")
    ∷ (codes "PT", codes "Portugal")
    ∷ (codes "GR", codes "Greece")
    ∷ (codes "CZ", codes "Czech Republic")
    ∷ (codes "RO", codes "Romania")
    ∷ (codes "HU", codes "Hungary")
    ∷ (codes "UA", codes "Ukraine")
    ∷ (codes "RU", codes "Russian Federation")
    ∷ (codes "BY", codes "Belarus")
    ∷ (codes "CN", codes "China")
    ∷ (codes "JP", codes "Japan")
    ∷ (codes "KR", codes "South Korea")
    ∷ (codes "IN", codes "India")
    ∷ (codes "ID", codes "Indonesia")
    ∷ (codes "TH", codes "Thailand")
    ∷ (codes "VN", codes "Vietnam")
    ∷ (codes "MY", codes "Malaysia")
    ∷ (codes "SG", codes "Singapore")
    ∷ (codes "PH", codes "Philippines")
    ∷ (codes "TW", codes "Taiwan")
    ∷ (codes "HK", codes "Hong Kong")
    ∷ (codes "AU", codes "Australia")
    ∷ (codes "NZ", codes "New Zealand")
    ∷ (codes "BR", codes "Brazil")
    ∷ (codes "AR", codes "Argentina")
    ∷ (codes "CO", codes "Colombia")
    ∷ (codes "CL", codes "Chile")
    ∷ (codes "PE", codes "Peru")
    ∷ (codes "VE", codes "Venezuela")
    ∷ (codes "ZA", codes "South Africa")
    ∷ (codes "EG", codes "Egypt")
    ∷ (codes "NG", codes "Nigeria")
    ∷ (codes "KE", codes "Kenya")
    ∷ (codes "MA", codes "Morocco")
    ∷ (codes "AE", codes "United Arab Emirates")
    ∷ (codes "SA", codes "Saudi Arabia")
    ∷ (codes "IL", codes "Israel")
    ∷ (codes "TR", codes "Turkey")
    ∷ (codes "IR", codes "Iran")
    ∷ (codes "EU", codes "European Union")
    ∷ (codes "XX", codes "Unknown")
    ∷ []

unfoldable pub get_country_name : Bytes → Bytes
get_country_name code = elim (lookup code countries) [ some name ↦ name | none ↦ codes "Unknown" ]

abbrev pub points : Bool → ℕ → ℕ
points flag n = if flag then n else 0

unfoldable pub calculate_threat_score : GeoIpInfo → ℕ
calculate_threat_score info =
    points info.is_vpn 20
    + points info.is_tor 50
    + points info.is_datacenter 10
    + points info.is_proxy 15

abbrev pub with_score : GeoIpInfo → GeoIpInfo
with_score info = record info { threat_score = calculate_threat_score info }

abbrev pub private_blocks : List Bytes
private_blocks =
    codes "10.0.0.0/8"
    ∷ codes "172.16.0.0/12"
    ∷ codes "192.168.0.0/16"
    ∷ codes "127.0.0.0/8"
    ∷ codes "169.254.0.0/16"
    ∷ codes "fc00::/7"
    ∷ codes "fe80::/10"
    ∷ []

abbrev pub datacenter_ranges : List Bytes
datacenter_ranges =
    codes "52.0.0.0/8"
    ∷ codes "54.0.0.0/8"
    ∷ codes "35.0.0.0/8"
    ∷ codes "34.0.0.0/8"
    ∷ codes "20.0.0.0/8"
    ∷ codes "40.0.0.0/8"
    ∷ codes "104.16.0.0/12"
    ∷ codes "172.64.0.0/13"
    ∷ []

module _ {Ip Net : Type 0} (lib : GeoLib Ip Net) where
  unfoldable pub determine_country : Ip → Bytes
  determine_country ip = elim (lib.to4 ip) [
    | none ↦ codes "XX"
    | some (first, second) ↦ country_of_octets first second
  ]

  -- The blocks are constants that package net parses.
  unfoldable pub in_block : Ip → Bytes → Bool
  in_block ip block = elim (lib.net.parse_cidr block) [
    | none ↦ false
    | some n ↦ lib.net.net_contains n ip
  ]

  unfoldable pub is_private_ip : Ip → Bool
  is_private_ip ip = any (in_block ip) private_blocks

  unfoldable pub is_datacenter_ip : Ip → Bool
  is_datacenter_ip ip = any (in_block ip) datacenter_ranges

  unfoldable pub lookup_fallback : Bytes → Ip → GeoIpInfo
  lookup_fallback text ip =
      let code = determine_country ip in
      if is_private_ip ip
      then new_info text (codes "XX") (codes "Private Network")
      else with_score (record (new_info text code (get_country_name code)) {
        is_datacenter = is_datacenter_ip ip;
      })
