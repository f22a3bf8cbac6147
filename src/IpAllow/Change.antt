-- ===== src/IpAllow/Change.antt =====
-- What the list of internal/app/ipallow/ipallow.go answers after `AddIP`, and to a client that
-- names its address in X-Forwarded-For.
use obsidian.Common.Map.{lookup, insert, lookup-insert, lookup-delete}
use obsidian.Common.{
  ℕ, ◌≡◌, ◌≢◌, refl, ap, ◌∙◌, inl, inr, true, List, [], ◌∷◌, ◌++◌, none, some, arith, Bytes,
  same_iff, length, get_or, Option-cases, All,
}
use obsidian.RateLimit.Http.{before_comma-append}
use obsidian.IpAllow.{
  Error, ok, err, IpLib, AllowlistEntry, AllowlistStore, Manager, entry_at, blank,
}
use obsidian.IpAllow.Api.{is_allowed, new_entry, insert_ip, add_ip, extract_ip}
use obsidian.Security.Client.{same-append}
use obsidian.IpAllow.Admit.{is_allowed-Admitted}

get_or-end {ℓ} : {A : Type ℓ} (xs : List A) (x d : A) → get_or (xs ++ x ∷ []) (length xs) d ≡ x
get_or-end [] x d = refl
get_or-end (y ∷ xs) x d = get_or-end xs x d

module _ {S Ip Net : Type 0} (net : IpLib Ip Net) (st : AllowlistStore S Net) where
  insert_ip-ok :
      (m : Manager S Net) (e e' : AllowlistEntry Net)
      → (insert_ip net st m e).1 ≡ ok e'
      → ((insert_ip net st m e).0.heap ≡ m.heap ++ e ∷ [])
        × ((insert_ip net st m e).0.entries ≡ insert e.ip (length m.heap) m.entries)
        × ((insert_ip net st m e).0.config ≡ m.config)
  unfolding insert_ip
  insert_ip-ok m e e' h = elim (Option-cases m.store) [
    | inl f ↦ ground (arith, f, h)
    | inr (s, f) ↦ ground (arith, f, h)
  ]

  insert_ip-is_allowed :
      (m : Manager S Net) (e e' : AllowlistEntry Net) (ip : Bytes) (p : Ip) (now : ℕ)
      → net.parse_ip ip ≡ some p
      → e.ip ≡ net.ip_string p
      → e.enabled ≡ true
      → (insert_ip net st m e).1 ≡ ok e'
      → (is_allowed net st (insert_ip net st m e).0 ip now).1 ≡ true
  insert_ip-is_allowed m e e' ip p now known named on h =
      let m' = (insert_ip net st m e).0 in
      let (heap, entries, _) = insert_ip-ok m e e' h in
      let i = length m.heap in
      let found : lookup (net.ip_string p) m'.entries ≡ some i =
        ap (lookup (net.ip_string p)) entries
        ∙ ground (
          arith,
          lookup-insert e.ip (net.ip_string p) i m.entries,
          same_iff e.ip (net.ip_string p),
          named,
        ) in
      let enabled : (entry_at m' i).enabled ≡ true =
        ap (λ es. (get_or es i blank).enabled) heap
        ∙ ap (λ (x : AllowlistEntry Net). x.enabled) (get_or-end m.heap e blank)
        ∙ on in
      (is_allowed-Admitted net st m' ip now).1 (inr (p, known, inr (inl (i, found, enabled))))

  insert_ip-err :
      (m : Manager S Net) (e : AllowlistEntry Net) (x : Error) (j : Bytes)
      → (insert_ip net st m e).1 ≡ err x
      → lookup j (insert_ip net st m e).0.entries ≡ lookup j m.entries
  unfolding insert_ip
  insert_ip-err m e x j h =
      let put = lookup-insert e.ip j (length m.heap) m.entries in
      let gone = lookup-delete e.ip j (insert e.ip (length m.heap) m.entries) in
      elim (Option-cases (lookup e.ip m.entries)) [
        | inr (i, known) ↦ ground (arith, known, h)
        | inl new ↦ elim (Option-cases m.store) [
          | inl f ↦ ground (arith, new, f, h)
          | inr (s, f) ↦ ground (arith, new, f, h, put, gone, same_iff e.ip j)
        ]
      ]

  -- An address that was added is admitted.
  pub add_ip-is_allowed :
      (m : Manager S Net) (ip description created_by id : Bytes) (at now : ℕ)
      (e : AllowlistEntry Net)
      → (add_ip net st m ip description created_by id at).1 ≡ ok e
      → (is_allowed net st (add_ip net st m ip description created_by id at).0 ip now).1 ≡ true
  unfolding add_ip
  add_ip-is_allowed m ip description created_by id at now e h =
      elim (Option-cases (net.parse_ip ip)) [
        | inl bad ↦ absurd (ground (arith, bad, h))
        | inr (p, good) ↦
            let fresh = new_entry net st id (net.ip_string p) none description created_by at in
            rw (good, add_ip)
              (insert_ip-is_allowed m fresh e ip p now good refl refl (ground (arith, good, h)))
      ]

  -- A failed `AddIP` leaves every address of the list with the entry that it had.
  pub add_ip-err :
      (m : Manager S Net) (ip description created_by id : Bytes) (at : ℕ) (e : Error) (j : Bytes)
      → (add_ip net st m ip description created_by id at).1 ≡ err e
      → lookup j (add_ip net st m ip description created_by id at).0.entries ≡ lookup j m.entries
  unfolding add_ip
  add_ip-err m ip description created_by id at e j h = elim (Option-cases (net.parse_ip ip)) [
    | inl bad ↦ rw (bad, add_ip) refl
    | inr (p, good) ↦
        rw (good, add_ip)
          (insert_ip-err m (new_entry net st id (net.ip_string p) none description created_by at) e
            j (ground (arith, good, h)))
  ]

  -- A client is admitted that puts a loopback address in front of its X-Forwarded-For header, if
  -- the configuration admits loopback addresses: the header is believed, whoever sends it.
  pub is_allowed-extract_ip :
      (m : Manager S Net) (remote_addr ip rest : Bytes) (p : Ip) (now : ℕ)
      → net.parse_ip ip ≡ some p
      → net.is_loopback p ≡ true
      → m.config.allow_localhost ≡ true
      → All (λ c. c ≢ b',') ip
      → (is_allowed net st m (extract_ip remote_addr (ip ++ b',' ∷ rest)) now).1 ≡ true
  unfolding extract_ip
  is_allowed-extract_ip m remote_addr ip rest p now known local on plain =
      let named : extract_ip remote_addr (ip ++ b',' ∷ rest) ≡ ip =
        ground (arith, same-append ip rest, before_comma-append ip rest plain) in
      ap (λ s. (is_allowed net st m s now).1) named
      ∙ (is_allowed-Admitted net st m ip now).1 (inr (p, known, inl (on, local)))
