-- ===== src/Security/Tests.antt =====
-- Clients behind a proxy on small inputs. An address is its text, and a network the prefix that
-- its addresses have.
use obsidian.Common.Map.{lookup}
use obsidian.Common.{
  ◌≡◌, refl, true, false, [], ◌∷◌, some, Bytes, codes, same, has_prefix, trim_left, trim_right,
  trim_space,
}
use mathlib.Core.List.{reverse}
use obsidian.Security.{
  NetLib, Manager, trim_open, trim_close, split_first, split_last, split_host_port, split_commas,
  direct_ip, is_trusted_proxy, first_untrusted, extract_client_ip,
}
use obsidian.Security.Client.{extract_client_ip-forged}

abbrev texts : NetLib Bytes Bytes
texts = record {
  parse_ip = λ s. some s;
  parse_cidr = λ s. some s;
  net_contains = λ n ip. has_prefix ip n;
}

abbrev proxies : Manager Bytes
proxies = record { trusted_nets = codes "10." ∷ []; trusted_ips = (codes "127.0.0.1", true) ∷ [] }

bracketed : direct_ip (codes "[::1]:80") ≡ codes "::1"
unfolding split_host_port split_first split_last trim_open trim_close has_prefix same
bracketed = refl

outside : is_trusted_proxy texts proxies (direct_ip (codes "203.0.113.9:80")) ≡ false
unfolding is_trusted_proxy lookup split_host_port split_first split_last trim_open trim_close
    has_prefix same
outside = refl

inside : is_trusted_proxy texts proxies (direct_ip (codes "10.0.0.2:80")) ≡ true
unfolding is_trusted_proxy lookup split_host_port split_first split_last trim_open trim_close
    has_prefix same
inside = refl

hop :
    first_untrusted texts proxies (reverse (split_commas (codes "192.0.2.7, 10.0.0.3")))
    ≡ some (codes "192.0.2.7")
unfolding first_untrusted is_trusted_proxy lookup split_commas trim_space trim_left trim_right
    trim_open trim_close has_prefix same
hop = refl

extract_client_ip-forged_example :
    extract_client_ip texts proxies (codes "10.0.0.2:80") (codes "127.0.0.1,192.0.2.7, 10.0.0.3") []
    ≡ codes "192.0.2.7"
extract_client_ip-forged_example =
    extract_client_ip-forged texts proxies (codes "10.0.0.2:80") (codes "127.0.0.1")
      (codes "192.0.2.7, 10.0.0.3") [] (codes "192.0.2.7") inside hop
