-- ===== src/Store.antt =====
-- internal/app/store/store.go: the rules of the firewall, the log of its requests and the counts of
-- them. A rule's identifier is a Go `int`; the other numbers of a rule are only carried along. The
-- users of the state and the calls of PostgreSQL, whose failures are only logged, are left out.
pub mod Line
pub mod Parse
pub mod Load
pub mod Edit
pub mod Counts
pub mod Unique
pub mod Valid
pub mod Started
pub mod Find
pub mod Kept
pub mod Words
pub mod Parsed
mod Tests
use obsidian.Common.Int.{ℤ, pos, negsuc}
use obsidian.Common.{
  ℕ, suc, ◌+◌, Bool, true, false, ◌&&◌, ◌||◌, List, [], ◌∷◌, Option, Bytes, codes, same, ltb, leb,
  ◌==◌, if◌then◌else◌,
}

pub record Rule : Type 0 where
  pub id : ℤ
  pub description : Bytes
  pub severity : Bytes
  pub enabled : Bool
  pub category : Bytes
  pub source : Bytes
  pub read_only : Bool
  pub pattern : Bytes
  pub target_field : Bytes
  pub action : Bytes
  pub block_status : ℤ
  pub threshold : ℤ
  pub time_window : ℤ
  pub match_count : ℕ
  pub last_match : Bytes

-- `LogEntry`, with the fields that the store reads; `rest` stands for the others.
pub record LogEntry : Type 0 where
  pub rule_id : ℤ
  pub action : Bytes
  pub status : Bytes
  pub rest : Bytes

-- `Stats` without the average, which GetStats computes from the accumulators.
pub record Stats : Type 0 where
  pub total_requests : ℕ
  pub blocked_requests : ℕ
  pub flagged_requests : ℕ
  pub safe_requests : ℕ
  pub active_rules_count : ℕ
  pub total_response_time_ns : ℕ
  pub response_count : ℕ

pub record SystemState : Type 0 where
  pub logs : List LogEntry
  pub rules : List Rule
  pub stats : Stats

-- The reading of files and their text, and the writing of the state. A rules file is its lines.
pub record Files (F : Type 0) : Type 0 where
  -- the state file, if it can be read; a file that does not parse leaves the state as it is
  pub read_state : F → Option (SystemState → SystemState)
  -- `none` if the file does not open or the scanner fails
  pub custom_lines : F → Option (List Bytes)
  -- the files of the pattern that open, each with its lines or the failure of its scanner
  pub crs_files : F → Option (List (Option (List Bytes)))
  -- `persistState`
  pub persist : F → SystemState → F × Bool
  -- strconv.Atoi and `%d`
  pub atoi : Bytes → Option ℤ
  pub decimal : ℤ → Bytes

pub record Store (F : Type 0) : Type 0 where
  pub files : F
  pub state : SystemState
  -- whether there is a path of a rules file, and of the CRS
  pub has_rules_file : Bool
  pub has_crs_path : Bool
  pub crs_on : Bool
  pub custom_rules : List Rule
  pub crs_rules : List Rule

pub data Error : Type 0 where
  out_of_range duplicate_id read_only_rule not_found persist_failed read_failed : Error

pub data Result : Type 0 where
  ok : Result
  err : Error → Result

-- `a == b` on identifiers.
unfoldable pub same_id : ℤ → ℤ → Bool
same_id (pos a) (pos b) = a == b
same_id (negsuc a) (negsuc b) = a == b
same_id _ _ = false

-- `low <= id && id <= high` for natural bounds.
unfoldable pub within : ℕ → ℕ → ℤ → Bool
within low high (pos n) = leb low n && leb n high
within low high (negsuc n) = false

unfoldable pub ltℤ : ℤ → ℤ → Bool
ltℤ (pos a) (pos b) = ltb a b
ltℤ (negsuc a) (negsuc b) = ltb b a
ltℤ (negsuc a) (pos b) = true
ltℤ (pos a) (negsuc b) = false

-- `validateRuleIDRange`: whether it has no error.
unfoldable pub validate_rule_id_range : Bytes → ℤ → Bool
validate_rule_id_range source id =
    if same source (codes "custom")
    then within 900000 909999 id
    else if same source (codes "crs")
    then within 900000 999999 id
    else true

-- A rule with this identifier is in the list.
unfoldable pub has_id : ℤ → List Rule → Bool
has_id id [] = false
has_id id (r ∷ rs) = same_id r.id id || has_id id rs
