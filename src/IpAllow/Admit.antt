-- ===== src/IpAllow/Admit.antt =====
-- Whom `IsAllowed` of internal/app/ipallow/ipallow.go admits.
use obsidian.Common.Map.{lookup}
use mathlib.Core.Path.{subst}
use obsidian.Common.{
  ℕ, ◌≡◌, ◌↔◌, sym, inl, inr, ◌⊎◌, true, false, List, [], ◌∷◌, none, some, arith, Bytes, Bool-cases,
  Option-cases,
}
use obsidian.IpAllow.{IpLib, AllowlistStore, Manager, entry_at}
use obsidian.IpAllow.Api.{covers, first_range, hit, is_allowed}

abbrev pub Among : ℕ → List ℕ → Type 0
Among i [] = ⊥
Among i (j ∷ js) = (i ≡ j) ⊎ Among i js

module _ {S Ip Net : Type 0} (net : IpLib Ip Net) (st : AllowlistStore S Net) where
  -- An enabled entry lists the address, by itself or by a range.
  abbrev pub Listed : Manager S Net → Ip → Type 0
  Listed m p =
      ((i : ℕ) × (lookup (net.ip_string p) m.entries ≡ some i) × ((entry_at m i).enabled ≡ true))
      ⊎ ((i : ℕ) × Among i m.cidrs × (covers net st (entry_at m i) p ≡ true))

  -- The address may use the administration.
  abbrev pub Admitted : Manager S Net → Bytes → Type 0
  Admitted m ip =
      (m.config.enabled ≡ false)
      ⊎ ((p : Ip) × (net.parse_ip ip ≡ some p)
          × (((m.config.allow_localhost ≡ true) × (net.is_loopback p ≡ true)) ⊎ Listed m p))

  first_range-none :
      (m : Manager S Net) (p : Ip) (is : List ℕ) (i : ℕ)
      → first_range net st m p is ≡ none
      → Among i is
      → covers net st (entry_at m i) p ≡ false
  unfolding first_range
  first_range-none m p [] i h a = elim a [ ]
  first_range-none m p (j ∷ js) i h a = elim (Bool-cases (covers net st (entry_at m j) p)) [
    | inl e ↦ absurd (ground (arith, e, h))
    | inr e ↦ elim a [
      | inl same_one ↦ subst (λ k. covers net st (entry_at m k) p ≡ false) (sym same_one) e
      | inr later ↦ first_range-none m p js i (ground (arith, e, h)) later
    ]
  ]

  first_range-some :
      (m : Manager S Net) (p : Ip) (is : List ℕ) (i : ℕ)
      → first_range net st m p is ≡ some i
      → Among i is × (covers net st (entry_at m i) p ≡ true)
  unfolding first_range
  first_range-some m p [] i h = cc
  first_range-some m p (j ∷ js) i h = elim (Bool-cases (covers net st (entry_at m j) p)) [
    | inl e ↦
        let j_is : j ≡ i = ground (arith, e, h) in
        (inl (sym j_is), subst (λ k. covers net st (entry_at m k) p ≡ true) j_is e)
    | inr e ↦ let (a, c) = first_range-some m p js i (ground (arith, e, h)) in (inr a, c)
  ]

  hit-Listed : (m : Manager S Net) (p : Ip) (i : ℕ) → hit net st m p ≡ some i → Listed m p
  unfolding hit
  hit-Listed m p i h = elim (Option-cases (lookup (net.ip_string p) m.entries)) [
    | inl e ↦ (let (a, c) = first_range-some m p m.cidrs i (ground (arith, e, h)) in inr (i, a, c))
    | inr (j, e) ↦ elim (Bool-cases ((entry_at m j).enabled)) [
      | inl on ↦ inl (j, e, on)
      | inr off ↦
          (let (a, c) = first_range-some m p m.cidrs i (ground (arith, e, off, h)) in inr (i, a, c))
    ]
  ]

  hit-none :
      (m : Manager S Net) (p : Ip)
      → hit net st m p ≡ none
      → (first_range net st m p m.cidrs ≡ none)
        × ((i : ℕ) → lookup (net.ip_string p) m.entries ≡ some i → (entry_at m i).enabled ≡ false)
  unfolding hit
  hit-none m p h = elim (Option-cases (lookup (net.ip_string p) m.entries)) [
    | inl e ↦ (ground (arith, e, h), (λ i f. ground (arith, e, f)))
    | inr (j, e) ↦ elim (Bool-cases ((entry_at m j).enabled)) [
      | inl on ↦ absurd (ground (arith, e, on, h))
      | inr off ↦ (
        ground (arith, e, off, h),
        (λ i f.
            let j_is : j ≡ i = ground (arith, e, f) in
            subst (λ k. (entry_at m k).enabled ≡ false) j_is off),
      )
    ]
  ]

  Listed-hit : (m : Manager S Net) (p : Ip) → hit net st m p ≡ none → Listed m p → ⊥
  Listed-hit m p h (inl (i, e, on)) = ground (arith, (hit-none m p h).1 i e, on)
  Listed-hit m p h (inr (i, a, c)) =
      ground (arith, first_range-none m p m.cidrs i (hit-none m p h).0 a, c)

  admit-known :
      (m : Manager S Net) (ip : Bytes) (now : ℕ) (p : Ip)
      → m.config.enabled ≡ true
      → net.parse_ip ip ≡ some p
      → ((is_allowed net st m ip now).1 ≡ true)
        ↔ (((m.config.allow_localhost ≡ true) × (net.is_loopback p ≡ true)) ⊎ Listed m p)
  unfolding is_allowed
  admit-known m ip now p on e = elim (Option-cases (hit net st m p)) [
    | inl missed ↦ (
      (λ h. inl (ground (arith, on, e, missed, h))),
      (λ a. elim a [
        | inl local ↦ ground (arith, on, e, local)
        | inr listed ↦ absurd (Listed-hit m p missed listed)
      ]),
    )
    | inr (i, found) ↦ ((λ h. inr (hit-Listed m p i found)), (λ a. ground (arith, on, e, found)))
  ]

  -- An address is admitted exactly if the list is off, or it parses and is a loopback address that
  -- the configuration admits, or an enabled entry is for it or for a range that contains it.
  pub is_allowed-Admitted :
      (m : Manager S Net) (ip : Bytes) (now : ℕ)
      → ((is_allowed net st m ip now).1 ≡ true) ↔ Admitted m ip
  unfolding is_allowed
  is_allowed-Admitted m ip now = (
    (λ h. elim (Bool-cases (m.config.enabled)) [
      | inr off ↦ inl off
      | inl on ↦ elim (Option-cases (net.parse_ip ip)) [
        | inl e ↦ absurd (ground (arith, on, e, h))
        | inr (p, e) ↦ inr (p, e, (admit-known m ip now p on e).0 h)
      ]
    ]),
    (λ a. elim (Bool-cases (m.config.enabled)) [
      | inr off ↦ ground (arith, off)
      | inl on ↦ elim a [
        | inl off ↦ absurd (ground (arith, on, off))
        | inr (p, e, l) ↦ (admit-known m ip now p on e).1 l
      ]
    ]),
  )
