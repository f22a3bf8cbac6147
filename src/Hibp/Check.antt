-- ===== src/Hibp/Check.antt =====
-- The check of a password and its cache.
use obsidian.Common.Map.{Map, insert, lookup}
use obsidian.Common.{
  ℕ, ◌-◌, false, not, ◌&&◌, leb, ltb, List, [], ◌∷◌, Option, none, some, Bytes, take, to_upper,
  trim_space, if◌then◌else◌,
}
use obsidian.Hibp.{
  Answer, BreachResult, Checker, Error, Result, err, lines, no_answer, ok, other_status,
  password_breached, rate_limited, read_failed, service_unavailable, too_many_requests,
}
use obsidian.RespBody.{drop}
use obsidian.Security.{split_first}

abbrev pub count_or_zero : Option ℕ → ℕ
count_or_zero none = 0
count_or_zero (some n) = n

-- The count of `checkCache`.
unfoldable pub check_cache : Checker → Bytes → Bytes → ℕ → Option ℕ
check_cache c prefix suffix now = elim (lookup prefix c.cache) [
  | none ↦ none
  | some entry ↦
      if ltb c.config.cache_duration (now - entry.fetched_at)
      then none
      else some (count_or_zero (lookup suffix entry.suffixes))
]

unfoldable pub cache_result : Checker → Bytes → Map ℕ → ℕ → Checker
cache_result c prefix suffixes now = record c {
  cache = insert prefix (record { suffixes = suffixes; fetched_at = now }) c.cache;
}

module _ (atoi : Bytes → Option ℕ) where
  -- The suffix and the count of a line `SUFFIX:COUNT`. An empty line has no colon.
  unfoldable pub parse_line : Bytes → Option (Bytes × ℕ)
  parse_line line = elim (split_first b':' (trim_space line)) [
    | none ↦ none
    | some (suffix, count) ↦ elim (atoi count) [ none ↦ none | some n ↦ some (to_upper suffix, n) ]
  ]

  unfoldable pub parse_lines : List Bytes → Map ℕ → Map ℕ
  parse_lines [] suffixes = suffixes
  parse_lines (line ∷ rest) suffixes = elim (parse_line line) [
    | none ↦ parse_lines rest suffixes
    | some (suffix, n) ↦ parse_lines rest (insert suffix n suffixes)
  ]

  unfoldable pub fetch_hibp_range : Answer → Result (Map ℕ)
  fetch_hibp_range (lines ls complete) =
      if complete then ok (parse_lines ls []) else err read_failed
  fetch_hibp_range too_many_requests = err rate_limited
  fetch_hibp_range other_status = err service_unavailable
  fetch_hibp_range no_answer = err service_unavailable

  module _ (sha1_hex : Bytes → Bytes) where
    abbrev pub prefix_of : Bytes → Bytes
    prefix_of password = take 5 (sha1_hex password)

    abbrev pub suffix_of : Bytes → Bytes
    suffix_of password = drop 5 (sha1_hex password)

    abbrev pub result_of : Checker → Bytes → ℕ → BreachResult
    result_of c prefix count = record {
      is_breached = leb c.config.breach_threshold count;
      breach_count = count;
      prefix = prefix;
    }

    unfoldable pub check_password : Checker → Bytes → Answer → ℕ → Checker × Result BreachResult
    check_password c password answer now =
        let prefix = prefix_of password in
        let suffix = suffix_of password in
        if not c.config.enabled
        then (c, ok (record { is_breached = false; breach_count = 0; prefix = [] }))
        else elim (check_cache c prefix suffix now) [
          | some count ↦ (c, ok (result_of c prefix count))
          | none ↦ elim (fetch_hibp_range answer) [
            | err e ↦ (c, err e)
            | ok suffixes ↦ (
              cache_result c prefix suffixes now,
              ok (result_of c prefix (count_or_zero (lookup suffix suffixes))),
            )
          ]
        ]

    unfoldable pub validate_password : Checker → Bytes → Answer → ℕ → Checker × Option Error
    validate_password c password answer now =
        let (c', result) = check_password c password answer now in
        elim result [
          | err e ↦ (c', none)
          | ok r ↦
              if r.is_breached && not c.config.warn_only
              then (c', some password_breached)
              else (c', none)
        ]
