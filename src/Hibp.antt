-- ===== src/Hibp.antt =====
-- internal/app/hibp/hibp.go: passwords that are known from breaches. `sha1_hex` stands for SHA-1 in
-- upper-case hexadecimal and `atoi` for strconv.Atoi, and what the service answers is an argument. The
-- time of a result is left out, and a count is a natural number, as the service gives no other.
pub mod Check
pub mod Breached
mod Tests
use obsidian.Common.Map.{Map}
use obsidian.Common.{ℕ, ◌*◌, Bool, true, false, List, [], Option, none, some, Bytes}

pub data Error : Type 0 where
  password_breached service_unavailable rate_limited read_failed : Error

pub data Result (A : Type 0) : Type 0 where
  ok : A → Result A
  err : Error → Result A

pub record BreachResult : Type 0 where
  pub is_breached : Bool
  pub breach_count : ℕ
  pub prefix : Bytes

pub record Config : Type 0 where
  pub enabled : Bool
  pub breach_threshold : ℕ
  pub cache_duration : ℕ
  pub warn_only : Bool

abbrev pub default_config : Config
default_config = record {
  enabled = true;
  breach_threshold = 1;
  cache_duration = 24 * 3600 * 1_000_000_000;
  warn_only = false;
}

pub record CacheEntry : Type 0 where
  pub suffixes : Map ℕ
  pub fetched_at : ℕ

pub record Checker : Type 0 where
  pub config : Config
  pub cache : Map CacheEntry

-- An answer of the service: its lines, and whether they were read to the end.
pub data Answer : Type 0 where
  lines : List Bytes → Bool → Answer
  too_many_requests : Answer
  other_status : Answer
  no_answer : Answer

unfoldable pub new_checker : Option Config → Checker
new_checker config = record {
  config = elim config [ some c ↦ c | none ↦ default_config ];
  cache = [];
}

unfoldable pub set_enabled : Checker → Bool → Checker
set_enabled c enabled = record c { config = record c.config { enabled = enabled } }

unfoldable pub set_config : Checker → Config → Checker
set_config c config = record c { config = config }

unfoldable pub clear_cache : Checker → Checker
clear_cache c = record c { cache = [] }
