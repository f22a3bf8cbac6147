-- ===== src/Hibp/Breached.antt =====
-- Which passwords are refused, and what the cache answers.
use obsidian.Common.Map.{Map, insert, lookup, lookup-insert}
use obsidian.Common.{
  ℕ, ap, ◌-◌, ◌≤◌, ◌≡◌, ◌∙◌, refl, inl, inr, ◌↔◌, ◌⊎◌, true, false, Option-cases, List, [], ◌∷◌,
  Option, none, some, arith, Bytes, same, same_iff, if◌then◌else◌,
}
use obsidian.Hibp.{
  Answer, BreachResult, Checker, Error, err, lines, no_answer, ok, other_status, password_breached,
  rate_limited, read_failed, service_unavailable, too_many_requests,
}
use obsidian.Hibp.Check.{
  cache_result, check_cache, check_password, count_or_zero, fetch_hibp_range, parse_line,
  parse_lines, prefix_of, suffix_of, validate_password,
}

module _ (atoi : Bytes → Option ℕ) where
  -- The count of the last line that names the suffix.
  abbrev pub last_count : Bytes → List Bytes → Option ℕ → Option ℕ
  last_count suffix [] found = found
  last_count suffix (line ∷ rest) found = last_count suffix rest (elim (parse_line atoi line) [
    | none ↦ found
    | some (named, n) ↦ if same named suffix then some n else found
  ])

  parse_lines-lookup :
      (suffix : Bytes) (ls : List Bytes) (m : Map ℕ)
      → lookup suffix (parse_lines atoi ls m) ≡ last_count suffix ls (lookup suffix m)
  unfolding parse_lines
  parse_lines-lookup suffix [] m = refl
  parse_lines-lookup suffix (line ∷ rest) m = elim (Option-cases (parse_line atoi line)) [
    | inl e ↦ rw (e, parse_lines) (parse_lines-lookup suffix rest m)
    | inr ((named, n), e) ↦
        rw (e, parse_lines)
          (parse_lines-lookup suffix rest (insert named n m)
            ∙ ap (last_count suffix rest) (lookup-insert named suffix n m))
  ]

  fetched :
      (answer : Answer)
      → ((e : Error) × (fetch_hibp_range atoi answer ≡ err e))
        ⊎ ((m : Map ℕ) × (fetch_hibp_range atoi answer ≡ ok m))
  unfolding fetch_hibp_range
  fetched (lines ls true) = inr (parse_lines atoi ls [], refl)
  fetched (lines ls false) = inl (read_failed, refl)
  fetched too_many_requests = inl (rate_limited, refl)
  fetched other_status = inl (service_unavailable, refl)
  fetched no_answer = inl (service_unavailable, refl)

  module _ (sha1_hex : Bytes → Bytes) where
    -- A checker that is on, refuses and has nothing cached of the prefix refuses a password exactly
    -- when the count of the last line that names its suffix reaches the threshold.
    pub validate_password-last_count :
        (c : Checker) (password : Bytes) (ls : List Bytes) (now : ℕ)
        → c.config.enabled ≡ true
        → c.config.warn_only ≡ false
        → lookup (prefix_of atoi sha1_hex password) c.cache ≡ none
        → ((validate_password atoi sha1_hex c password (lines ls true) now).1
            ≡ some password_breached)
          ↔ (c.config.breach_threshold
              ≤ count_or_zero (last_count (suffix_of atoi sha1_hex password) ls none))
    unfolding validate_password check_password check_cache fetch_hibp_range lookup
    validate_password-last_count c password ls now on refuses fresh =
        ground
          (arith, on, refuses, fresh, parse_lines-lookup (suffix_of atoi sha1_hex password) ls [])

    -- A password that is checked again while the cache holds gets the same answer, whatever the service
    -- answers then.
    pub check_password-check_password :
        (c : Checker) (password : Bytes) (answer later : Answer) (now again : ℕ) (r : BreachResult)
        → c.config.enabled ≡ true
        → lookup (prefix_of atoi sha1_hex password) c.cache ≡ none
        → (check_password atoi sha1_hex c password answer now).1 ≡ ok r
        → again - now ≤ c.config.cache_duration
        → (check_password atoi sha1_hex
            (check_password atoi sha1_hex c password answer now).0
            password
            later
            again).1
          ≡ ok r
    unfolding check_password check_cache cache_result
    check_password-check_password c password answer later now again r on fresh h soon =
        elim (fetched answer) [
          | inl (e, failed) ↦ ground (arith, on, fresh, failed, h)
          | inr (m, answered) ↦ ground (
            arith,
            on,
            fresh,
            answered,
            h,
            soon,
            same_iff (prefix_of atoi sha1_hex password) (prefix_of atoi sha1_hex password),
            lookup-insert (prefix_of atoi sha1_hex password) (prefix_of atoi sha1_hex password)
                (record { suffixes = m; fetched_at = now }) c.cache,
          )
        ]
