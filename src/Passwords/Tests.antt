-- ===== src/Passwords/Tests.antt =====
-- The two rules on concrete passwords.
use obsidian.Common.{◌≤◌, ◌≡◌, ◌↔◌, refl, false, none, some, Bytes, codes, same, length, to_lower}
use obsidian.Passwords.{
  no_special, validate_password, validate_policy, all_groups, three_groups, scan, see, is_in,
  is_upper, is_lower, is_digit, is_special, common_passwords, load_common_passwords,
}
use obsidian.Passwords.Policy.{IsMixed, validate_password-IsMixed}

abbrev good : Bytes
good = codes "Tr0ub4dor&3xyz"

good_passes : validate_password good ≡ none
unfolding validate_password all_groups scan see is_in is_upper is_lower is_digit is_special
    common_passwords to_lower same
good_passes = refl

no_special_fails : validate_password (codes "Tr0ub4dor3xyz") ≡ some no_special
unfolding validate_password all_groups scan see is_in is_upper is_lower is_digit is_special
    common_passwords to_lower same
no_special_fails = refl

three_are_enough : validate_policy 12 false (codes "Tr0ub4dor3xyz") ≡ none
unfolding validate_policy three_groups scan see is_in is_upper is_lower is_digit is_special
    load_common_passwords to_lower same
three_are_enough = refl

validate_password-IsMixed_example :
    (validate_password good ≡ none)
    ↔ ((12 ≤ length good) × (is_in common_passwords (to_lower good) ≡ false) × IsMixed good)
validate_password-IsMixed_example = validate_password-IsMixed good
