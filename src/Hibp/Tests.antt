-- ===== src/Hibp/Tests.antt =====
-- The check on small inputs. The hash of a password is its text, and every count is 7.
use obsidian.Common.Map.{lookup}
use obsidian.Common.{
  ℕ, Option, ◌≡◌, ◌≤◌, ◌↔◌, refl, true, false, [], ◌∷◌, none, some, Bytes, codes, same, to_upper,
  trim_left, trim_right, trim_space,
}
use obsidian.Hibp.{Checker, lines, new_checker, password_breached}
use obsidian.Hibp.Breached.{last_count, validate_password-last_count}
use obsidian.Hibp.Check.{count_or_zero, parse_line, suffix_of, validate_password}
use obsidian.Security.{split_first}

abbrev plain : Bytes → Bytes
plain s = s

abbrev seven : Bytes → Option ℕ
seven s = some 7

abbrev checker : Checker
checker = new_checker none

line_parsed : parse_line seven (codes " ab:7 ") ≡ some (codes "AB", 7)
unfolding parse_line split_first to_upper trim_space trim_left trim_right same
line_parsed = refl

checker_on : checker.config.enabled ≡ true
unfolding new_checker
checker_on = refl

checker_refuses : checker.config.warn_only ≡ false
unfolding new_checker
checker_refuses = refl

checker_fresh : lookup (codes "12345") checker.cache ≡ none
unfolding new_checker lookup
checker_fresh = refl

validate_password-last_count_example :
    ((validate_password seven plain checker (codes "12345AB") (lines (codes "ab:7" ∷ []) true) 9).1
      ≡ some password_breached)
    ↔ (checker.config.breach_threshold
        ≤ count_or_zero
            (last_count seven (suffix_of seven plain (codes "12345AB")) (codes "ab:7" ∷ []) none))
validate_password-last_count_example =
    validate_password-last_count seven plain checker (codes "12345AB") (codes "ab:7" ∷ []) 9
      checker_on checker_refuses checker_fresh
