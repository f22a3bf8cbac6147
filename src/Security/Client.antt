-- ===== src/Security/Client.antt =====
-- Whom `ExtractClientIP` of internal/app/security/security.go believes.
use mathlib.Core.List.{reverse, reverse-append}
use obsidian.Common.{
  ◌≡◌, refl, ap, ◌∙◌, inl, inr, ◌⊎◌, true, false, List, [], ◌∷◌, ◌++◌, some, arith, Bytes, same,
  Bool-cases, Option-cases, ◌==◌,
}
use obsidian.Security.{
  NetLib, Manager, split_commas, direct_ip, is_trusted_proxy, first_untrusted, from_real_ip,
  extract_client_ip,
}

split_commas-cons :
    (s : Bytes) → (part : Bytes) × (parts : List Bytes) × (split_commas s ≡ part ∷ parts)
unfolding split_commas
split_commas-cons [] = ([], [], refl)
split_commas-cons (c ∷ s) =
    let (part, parts, e) = split_commas-cons s in
    elim (Bool-cases (c == b',')) [
      | inl f ↦ ([], part ∷ parts, rw (e, f) refl)
      | inr f ↦ (c ∷ part, parts, rw (e, f) refl)
    ]

split_commas-append :
    (s t : Bytes) → split_commas (s ++ b',' ∷ t) ≡ split_commas s ++ split_commas t
unfolding split_commas
split_commas-append [] t = let (part, parts, e) = split_commas-cons t in rw e refl
split_commas-append (c ∷ s) t =
    let (part, parts, e) = split_commas-cons s in
    let both : split_commas (s ++ b',' ∷ t) ≡ part ∷ (parts ++ split_commas t) =
      split_commas-append s t ∙ ap (λ ps. ps ++ split_commas t) e in
    elim (Bool-cases (c == b',')) [ inl f ↦ rw (both, e, f) refl | inr f ↦ rw (both, e, f) refl ]

pub same-append : (s t : Bytes) → same (s ++ b',' ∷ t) [] ≡ false
unfolding same
same-append [] t = refl
same-append (c ∷ s) t = refl

module _ {Ip Net : Type 0} (net : NetLib Ip Net) where
  first_untrusted-append :
      (m : Manager Net) (hops more : List Bytes) (ip : Bytes)
      → first_untrusted net m hops ≡ some ip
      → first_untrusted net m (hops ++ more) ≡ some ip
  unfolding first_untrusted
  first_untrusted-append m [] more ip h = cc
  first_untrusted-append m (hop ∷ hops) more ip h =
      ground (arith, h, first_untrusted-append m hops more ip)

  first_untrusted-untrusted :
      (m : Manager Net) (hops : List Bytes) (ip : Bytes)
      → first_untrusted net m hops ≡ some ip
      → is_trusted_proxy net m ip ≡ false
  unfolding first_untrusted
  first_untrusted-untrusted m [] ip h = cc
  first_untrusted-untrusted m (hop ∷ hops) ip h =
      ground (arith, h, first_untrusted-untrusted m hops ip)

  -- A client that is not a trusted proxy is taken by its own address, whatever it forwards.
  pub extract_client_ip-direct :
      (m : Manager Net) (remote_addr x_forwarded_for x_real_ip : Bytes)
      → is_trusted_proxy net m (direct_ip remote_addr) ≡ false
      → extract_client_ip net m remote_addr x_forwarded_for x_real_ip ≡ direct_ip remote_addr
  unfolding extract_client_ip
  extract_client_ip-direct m remote_addr xff real h = ground (arith, h)

  -- Behind a trusted proxy, the address that the honest end of the chain names is the result,
  -- whatever a client wrote in front of it.
  pub extract_client_ip-forged :
      (m : Manager Net) (remote_addr forged honest x_real_ip ip : Bytes)
      → is_trusted_proxy net m (direct_ip remote_addr) ≡ true
      → first_untrusted net m (reverse (split_commas honest)) ≡ some ip
      → extract_client_ip net m remote_addr (forged ++ b',' ∷ honest) x_real_ip ≡ ip
  unfolding extract_client_ip
  extract_client_ip-forged m remote_addr forged honest real ip trusted h =
      let chain : reverse (split_commas (forged ++ b',' ∷ honest))
          ≡ reverse (split_commas honest) ++ reverse (split_commas forged) =
        ap reverse (split_commas-append forged honest)
        ∙ reverse-append (split_commas forged) (split_commas honest) in
      let found : first_untrusted net m (reverse (split_commas (forged ++ b',' ∷ honest)))
          ≡ some ip =
        ap (first_untrusted net m) chain ∙ first_untrusted-append m _ _ ip h in
      ground (arith, trusted, found, same-append forged honest)

  -- The result is the address of the connection, or that is a trusted proxy and the result is not.
  pub extract_client_ip-untrusted :
      (m : Manager Net) (remote_addr x_forwarded_for x_real_ip : Bytes)
      → (extract_client_ip net m remote_addr x_forwarded_for x_real_ip ≡ direct_ip remote_addr)
        ⊎ ((is_trusted_proxy net m (direct_ip remote_addr) ≡ true)
            × (is_trusted_proxy net m
                  (extract_client_ip net m remote_addr x_forwarded_for x_real_ip)
                ≡ false))
  unfolding extract_client_ip from_real_ip
  extract_client_ip-untrusted m remote_addr xff real =
      elim (Option-cases (first_untrusted net m (reverse (split_commas xff)))) [
        | inl e ↦ ground (arith, e)
        | inr (ip, e) ↦ ground (arith, e, first_untrusted-untrusted m _ ip e)
      ]
