-- ===== src/Passwords/Policy.antt =====
-- Which passwords the two rules accept: internal/app/auth/password.go and
-- internal/app/security/security.go.
use mathlib.Core.Path.{subst}
use obsidian.Common.{
  ℕ, ◌+◌, ◌≤◌, ◌≡◌, ◌↔◌, inl, inr, Bool, true, false, ◌||◌, [], ◌∷◌, none, arith, Bytes, any,
  length, to_lower, if◌then◌else◌, All, ◌==◌, ==_iff, Bool-cases,
}
use obsidian.Passwords.{
  common_passwords, load_common_passwords, is_upper, is_lower, is_digit, is_special, Groups, see,
  scan, no_groups, all_groups, three_groups, special_characters, is_in, one_if, validate_password,
  validate_policy,
}

-- A special character is of no other group.
abbrev pub Plain : ℕ → Type 0
Plain c = (is_upper c ≡ false) × (is_lower c ≡ false) × (is_digit c ≡ false)

specials-Plain : All Plain special_characters
unfolding is_upper is_lower is_digit
specials-Plain = ground arith

any-Plain : (xs : Bytes) (c : ℕ) → All Plain xs → any (λ x. x == c) xs ≡ true → Plain c
any-Plain [] c h e = cc
any-Plain (x ∷ xs) c h e = elim (Bool-cases (x == c)) [
  | inl f ↦ subst Plain ((==_iff x c).0 f) h.0
  | inr f ↦ any-Plain xs c h.1 (ground (arith, e, f))
]

is_special-Plain : (c : ℕ) → is_special c ≡ true → Plain c
unfolding is_special
is_special-Plain c h = any-Plain special_characters c specials-Plain h

-- The groups of one byte: the earlier cases of the switch hide none of the later ones.
apart :
    (c : ℕ)
    → ((is_upper c ≡ true) → (is_lower c ≡ false) × (is_digit c ≡ false))
      × ((is_lower c ≡ true) → is_digit c ≡ false)
unfolding is_upper is_lower is_digit
apart c = ground arith

see-groups :
    (c : ℕ) (g : Groups)
    → ((see c g).has_upper ≡ (g.has_upper || is_upper c))
      × ((see c g).has_lower ≡ (g.has_lower || is_lower c))
      × ((see c g).has_number ≡ (g.has_number || is_digit c))
      × ((see c g).has_special ≡ (g.has_special || is_special c))
unfolding see
see-groups c g = ground (arith, apart c, is_special-Plain c)

-- The loop finds a group exactly if some byte is of it.
scan-groups :
    (g : Groups) (s : Bytes)
    → ((scan g s).has_upper ≡ (g.has_upper || any is_upper s))
      × ((scan g s).has_lower ≡ (g.has_lower || any is_lower s))
      × ((scan g s).has_number ≡ (g.has_number || any is_digit s))
      × ((scan g s).has_special ≡ (g.has_special || any is_special s))
unfolding scan
scan-groups g [] = ground arith
scan-groups g (c ∷ s) = ground (arith, see-groups c g, scan-groups (see c g) s)

-- A password has a byte of each group.
abbrev pub IsMixed : Bytes → Type 0
IsMixed s =
    (any is_upper s ≡ true)
    × (any is_lower s ≡ true)
    × (any is_digit s ≡ true)
    × (any is_special s ≡ true)

all_groups-IsMixed : (s : Bytes) → (all_groups (scan no_groups s) ≡ none) ↔ IsMixed s
unfolding all_groups
all_groups-IsMixed s = ground (arith, scan-groups no_groups s)

three_groups_lem :
    (s : Bytes)
    → (three_groups (scan no_groups s) ≡ none) ↔ (
        3
        ≤ one_if (any is_upper s)
          + one_if (any is_lower s)
          + one_if (any is_digit s)
          + one_if (any is_special s))
unfolding three_groups
three_groups_lem s = ground (arith, scan-groups no_groups s)

-- A password passes `ValidatePassword` of package auth exactly if it has at least 12 bytes, is
-- not a common one in lower case, and has an upper- and a lower-case letter, a digit and a
-- special character.
pub validate_password-IsMixed :
    (s : Bytes)
    → (validate_password s ≡ none)
      ↔ ((12 ≤ length s) × (is_in common_passwords (to_lower s) ≡ false) × IsMixed s)
unfolding validate_password
validate_password-IsMixed s = ground (arith, all_groups-IsMixed s)

-- Under the strict policy a password passes `ValidatePassword` of package security exactly if it
-- is long enough, not common in lower case, and has all four groups; else three groups are enough.
pub validate_policy_lem :
    (min : ℕ) (strict : Bool) (s : Bytes)
    → (validate_policy min strict s ≡ none) ↔ (
        (min ≤ length s)
        × (is_in load_common_passwords (to_lower s) ≡ false)
        × (if strict
            then IsMixed s
            else 3
              ≤ one_if (any is_upper s)
                + one_if (any is_lower s)
                + one_if (any is_digit s)
                + one_if (any is_special s)))
unfolding validate_policy
validate_policy_lem min true s = ground (arith, all_groups-IsMixed s)
validate_policy_lem min false s = ground (arith, three_groups_lem s)
