-- ===== src/Passwords.antt =====
-- The password rules of internal/app/auth/password.go and of internal/app/security/security.go. A
-- password is its bytes: a rune outside ASCII has none that a rule counts.
pub mod Policy
mod Tests
use obsidian.Common.{
  ℕ, ◌+◌, Bool, true, false, not, ◌&&◌, ◌||◌, List, [], ◌∷◌, Option, none, some, Bytes, codes, same,
  any, length, to_lower, ltb, leb, ◌==◌, if◌then◌else◌,
}

-- `commonPasswords` of package auth.
unfoldable pub common_passwords : List Bytes
common_passwords =
    codes "password"
    ∷ codes "password123"
    ∷ codes "12345678"
    ∷ codes "123456789"
    ∷ codes "qwerty"
    ∷ codes "admin"
    ∷ codes "admin123"
    ∷ codes "letmein"
    ∷ codes "welcome"
    ∷ codes "monkey"
    ∷ codes "dragon"
    ∷ codes "master"
    ∷ codes "obsidian"
    ∷ codes "obsidian123"
    ∷ codes "security"
    ∷ codes "trustno1"
    ∷ []

-- The list of `loadCommonPasswords` of package security.
unfoldable pub load_common_passwords : List Bytes
load_common_passwords =
    codes "password"
    ∷ codes "123456"
    ∷ codes "12345678"
    ∷ codes "qwerty"
    ∷ codes "abc123"
    ∷ codes "monkey"
    ∷ codes "1234567"
    ∷ codes "letmein"
    ∷ codes "trustno1"
    ∷ codes "dragon"
    ∷ codes "baseball"
    ∷ codes "iloveyou"
    ∷ codes "master"
    ∷ codes "sunshine"
    ∷ codes "ashley"
    ∷ codes "bailey"
    ∷ codes "passw0rd"
    ∷ codes "shadow"
    ∷ codes "123123"
    ∷ codes "654321"
    ∷ codes "superman"
    ∷ codes "qazwsx"
    ∷ codes "michael"
    ∷ codes "football"
    ∷ codes "password1"
    ∷ codes "password123"
    ∷ codes "welcome"
    ∷ codes "welcome1"
    ∷ codes "admin"
    ∷ codes "admin123"
    ∷ codes "root"
    ∷ codes "toor"
    ∷ codes "pass"
    ∷ codes "test"
    ∷ codes "guest"
    ∷ codes "master123"
    ∷ codes "changeme"
    ∷ codes "12345"
    ∷ codes "123456789"
    ∷ codes "1234567890"
    ∷ codes "0987654321"
    ∷ codes "qwerty123"
    ∷ codes "qwertyuiop"
    ∷ codes "1q2w3e4r"
    ∷ codes "1qaz2wsx"
    ∷ codes "zaq12wsx"
    ∷ codes "!qaz2wsx"
    ∷ codes "password!"
    ∷ codes "p@ssw0rd"
    ∷ codes "p@ssword"
    ∷ codes "passw0rd!"
    ∷ codes "pa$$word"
    ∷ codes "pa$$w0rd"
    ∷ codes "secret"
    ∷ codes "secret123"
    ∷ codes "letmein123"
    ∷ codes "access"
    ∷ codes "login"
    ∷ codes "administrator"
    ∷ codes "default"
    ∷ codes "hello"
    ∷ codes "hello123"
    ∷ codes "winter"
    ∷ codes "spring"
    ∷ codes "summer"
    ∷ codes "autumn"
    ∷ codes "january"
    ∷ codes "february"
    ∷ codes "march"
    ∷ codes "april"
    ∷ codes "may2024"
    ∷ codes "june2024"
    ∷ codes "july2024"
    ∷ codes "company"
    ∷ codes "company123"
    ∷ codes "corporate"
    ∷ codes "business"
    ∷ codes "enterprise"
    ∷ codes "network"
    ∷ codes "server"
    ∷ codes "database"
    ∷ codes "mysql"
    ∷ codes "oracle"
    ∷ codes "postgres"
    ∷ codes "mongo"
    ∷ codes "redis"
    ∷ codes "security"
    ∷ codes "secure"
    ∷ codes "private"
    ∷ codes "public"
    ∷ codes "internal"
    ∷ codes "external"
    ∷ codes "obsidian"
    ∷ codes "sentinel"
    ∷ codes "waf"
    ∷ codes "firewall"
    ∷ codes "proxy"
    ∷ codes "gateway"
    ∷ codes "router"
    ∷ []

abbrev pub special_characters : Bytes
special_characters = codes "!@#$%^&*()_+-=[]{}|;':\",./<>?`~"

unfoldable pub is_upper : ℕ → Bool
is_upper c = leb b'A' c && leb c b'Z'

unfoldable pub is_lower : ℕ → Bool
is_lower c = leb b'a' c && leb c b'z'

unfoldable pub is_digit : ℕ → Bool
is_digit c = leb b'0' c && leb c b'9'

unfoldable pub is_special : ℕ → Bool
is_special c = any (λ x. x == c) special_characters

-- The four variables of the loop over a password.
pub record Groups : Type 0 where
  pub has_upper : Bool
  pub has_lower : Bool
  pub has_number : Bool
  pub has_special : Bool

-- The switch of that loop: the first case that holds.
unfoldable pub see : ℕ → Groups → Groups
see c g =
    if is_upper c
    then record g { has_upper = true }
    else if is_lower c
    then record g { has_lower = true }
    else if is_digit c
    then record g { has_number = true }
    else if is_special c
    then record g { has_special = true }
    else g

unfoldable pub scan : Groups → Bytes → Groups
scan g [] = g
scan g (c ∷ s) = scan (see c g) s

abbrev pub no_groups : Groups
no_groups = record { has_upper = false; has_lower = false; has_number = false; has_special = false }

pub data Error : Type 0 where
  too_short common no_upper no_lower no_number no_special too_few_groups : Error

-- The four tests that both packages make; `none` is no error.
unfoldable pub all_groups : Groups → Option Error
all_groups g =
    if not g.has_upper
    then some no_upper
    else if not g.has_lower
    then some no_lower
    else if not g.has_number
    then some no_number
    else if not g.has_special
    then some no_special
    else none

abbrev pub one_if : Bool → ℕ
one_if b = if b then 1 else 0

unfoldable pub three_groups : Groups → Option Error
three_groups g =
    if ltb (one_if g.has_upper + one_if g.has_lower + one_if g.has_number + one_if g.has_special) 3
    then some too_few_groups
    else none

unfoldable pub is_in : List Bytes → Bytes → Bool
is_in ws w = any (λ x. same x w) ws

-- `ValidatePassword` of package auth.
unfoldable pub validate_password : Bytes → Option Error
validate_password password =
    if ltb (length password) 12
    then some too_short
    else if is_in common_passwords (to_lower password)
    then some common
    else all_groups (scan no_groups password)

-- `ValidatePassword` of package security, under its configuration.
unfoldable pub validate_policy : ℕ → Bool → Bytes → Option Error
validate_policy min_password_length require_all_complexity password =
    if ltb (length password) min_password_length
    then some too_short
    else if is_in load_common_passwords (to_lower password)
    then some common
    else if require_all_complexity
    then all_groups (scan no_groups password)
    else three_groups (scan no_groups password)
