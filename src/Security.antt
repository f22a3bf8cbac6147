-- ===== src/Security.antt =====
-- internal/app/security/security.go: the addresses of clients behind trusted proxies. `NetLib`
-- stands for the addresses and the networks of package net.
pub mod Client
mod Tests
use obsidian.Common.Map.{Map, lookup, insert}
use obsidian.Common.{
  ℕ, suc, Bool, true, false, not, ◌&&◌, ◌||◌, List, [], ◌∷◌, ◌++◌, Option, none, some, Bytes, codes,
  same, any, has_prefix, contains, trim_space, length, take, ◌==◌, if◌then◌else◌,
}
use mathlib.Core.List.{reverse}

pub record NetLib (Ip Net : Type 0) : Type 0 where
  pub parse_ip : Bytes → Option Ip
  pub parse_cidr : Bytes → Option Net
  pub net_contains : Net → Ip → Bool

pub record Manager (Net : Type 0) : Type 0 where
  pub trusted_nets : List Net
  pub trusted_ips : Map Bool

-- `strings.TrimPrefix(s, "[")`
unfoldable pub trim_open : Bytes → Bytes
trim_open [] = []
trim_open (c ∷ s) = if c == b'[' then s else c ∷ s

-- `strings.TrimSuffix(s, "]")`
unfoldable pub trim_close : Bytes → Bytes
trim_close [] = []
trim_close (c ∷ s) = let rest = trim_close s in if c == b']' && same s [] then [] else c ∷ rest

abbrev pub trim_brackets : Bytes → Bytes
trim_brackets s = trim_close (trim_open s)

-- What stands before and after the first byte `b`.
unfoldable pub split_first : ℕ → Bytes → Option (Bytes × Bytes)
split_first b [] = none
split_first b (c ∷ s) =
    let rest = split_first b s in
    if c == b then some ([], s) else elim rest [ none ↦ none | some (x, y) ↦ some (c ∷ x, y) ]

abbrev pub has_byte : ℕ → Bytes → Bool
has_byte b s = any (λ c. c == b) s

-- What stands before and after the last byte `b`.
unfoldable pub split_last : ℕ → Bytes → Option (Bytes × Bytes)
split_last b [] = none
split_last b (c ∷ s) =
    let rest = split_last b s in
    elim rest [ some (x, y) ↦ some (c ∷ x, y) | none ↦ if c == b then some ([], s) else none ]

-- The host of `net.SplitHostPort`: of `[host]:port`, or of `host:port` without a further colon.
unfoldable pub split_host_port : Bytes → Option Bytes
split_host_port s = elim (split_last b':' s) [
  | none ↦ none
  | some (before, port) ↦
      if has_prefix s (codes "[")
      then elim (split_first b']' s) [
        | none ↦ none
        | some (opened, after) ↦
            if not (same after (b':' ∷ port)) || has_byte b'[' (trim_open s) || has_byte b']' after
            then none
            else some (trim_open opened)
      ]
      else if has_byte b':' before || has_byte b'[' s || has_byte b']' s
      then none
      else some before
]

-- `strings.Split(s, ",")`
unfoldable pub split_commas : Bytes → List Bytes
split_commas [] = [] ∷ []
split_commas (c ∷ s) = elim (split_commas s) [
  | [] ↦ []
  | part ∷ parts ↦ if c == b',' then [] ∷ part ∷ parts else (c ∷ part) ∷ parts
]

abbrev pub direct_ip : Bytes → Bytes
direct_ip remote_addr =
    trim_brackets (elim (split_host_port remote_addr) [ some host ↦ host | none ↦ remote_addr ])

module _ {Ip Net : Type 0} (net : NetLib Ip Net) where
  -- The answer is whether the proxy was added: a network that does not parse is an error.
  unfoldable pub add_trusted_proxy : Manager Net → Bytes → Manager Net × Bool
  add_trusted_proxy m proxy =
      if contains proxy (codes "/")
      then elim (net.parse_cidr proxy) [
        | none ↦ (m, false)
        | some n ↦ (record m { trusted_nets = m.trusted_nets ++ n ∷ [] }, true)
      ]
      else (record m { trusted_ips = insert proxy true m.trusted_ips }, true)

  -- The loop of `NewManager` over the configured proxies; `none` is its error.
  unfoldable pub add_proxies : Manager Net → List Bytes → Option (Manager Net)
  add_proxies m [] = some m
  add_proxies m (proxy ∷ proxies) =
      let (m', good) = add_trusted_proxy m proxy in
      let rest = add_proxies m' proxies in if good then rest else none

  unfoldable pub new_manager : List Bytes → Option (Manager Net)
  new_manager proxies = add_proxies (record { trusted_nets = []; trusted_ips = [] }) proxies

  unfoldable pub is_trusted_proxy : Manager Net → Bytes → Bool
  is_trusted_proxy m ip_str =
      let bare = trim_brackets ip_str in
      let listed : Bool = elim (lookup bare m.trusted_ips) [ none ↦ false | some b ↦ b ] in
      let inside : Bool = elim (net.parse_ip bare) [
        | none ↦ false
        | some ip ↦ any (λ n. net.net_contains n ip) m.trusted_nets
      ] in
      listed || inside

  -- The loop over the chain, the hop that is closest to the server first.
  unfoldable pub first_untrusted : Manager Net → List Bytes → Option Bytes
  first_untrusted m [] = none
  first_untrusted m (hop ∷ hops) =
      let rest = first_untrusted m hops in
      let ip = trim_space hop in if same ip [] || is_trusted_proxy m ip then rest else some ip

  -- The fallback of `ExtractClientIP` on X-Real-IP.
  unfoldable pub from_real_ip : Manager Net → Bytes → Bytes → Bytes
  from_real_ip m direct x_real_ip =
      if not (same x_real_ip []) && not (is_trusted_proxy m (trim_space x_real_ip))
      then trim_space x_real_ip
      else direct

  unfoldable pub extract_client_ip : Manager Net → Bytes → Bytes → Bytes → Bytes
  extract_client_ip m remote_addr x_forwarded_for x_real_ip =
      let direct = direct_ip remote_addr in
      if same x_forwarded_for [] && same x_real_ip []
      then direct
      else if not (is_trusted_proxy m direct)
      then direct
      else if same x_forwarded_for []
      then from_real_ip m direct x_real_ip
      else elim (first_untrusted m (reverse (split_commas x_forwarded_for))) [
        | some ip ↦ ip
        | none ↦ from_real_ip m direct x_real_ip
      ]
