-- ===== src/RespBody.antt =====
-- internal/app/respbody/respbody.go: the inspection of response bodies for sensitive data. `RegexLib`
-- stands for package regexp, with the patterns of the source by their names. `MaxBodySize` is a
-- natural number: a negative one makes the slice of the body panic.
pub mod Luhn
pub mod Inspect
pub mod Blocked
mod Tests
use obsidian.Common.Map.{Map}
use obsidian.Common.{
  ℕ, zero, suc, ◌+◌, ◌-◌, ◌*◌, ◌||◌, Bool, true, false, leb, List, [], ◌∷◌, ◌++◌, Option, none,
  some, Bytes, codes, same, any, has_prefix, length, take, to_lower, if◌then◌else◌,
}

pub data LeakageType : Type 0 where
  ssn credit_card api_key aws_key private_key jwt password email_bulk ip_bulk custom : LeakageType

pub record Detection : Type 0 where
  pub kind : LeakageType
  pub pattern : Bytes
  pub count : ℕ
  pub severity : Bytes
  pub redacted : Bytes

pub record Config : Type 0 where
  pub enabled : Bool
  pub max_body_size : ℕ
  pub detect_ssn : Bool
  pub detect_credit_card : Bool
  pub detect_api_keys : Bool
  pub detect_aws_keys : Bool
  pub detect_private_keys : Bool
  pub detect_jwt : Bool
  pub detect_password_fields : Bool
  pub detect_bulk_email : Bool
  pub detect_bulk_ip : Bool
  pub block_on_detection : Bool
  pub min_severity_to_block : Bytes
  pub custom_patterns : Map Bytes
  pub exclude_paths : List Bytes
  pub exclude_content_types : List Bytes

unfoldable pub default_config : Config
default_config = record {
  enabled = true;
  max_body_size = 1024 * 1024;
  detect_ssn = true;
  detect_credit_card = true;
  detect_api_keys = true;
  detect_aws_keys = true;
  detect_private_keys = true;
  detect_jwt = true;
  detect_password_fields = true;
  detect_bulk_email = true;
  detect_bulk_ip = false;
  block_on_detection = false;
  min_severity_to_block = codes "high";
  custom_patterns = [];
  exclude_paths = codes "/health" ∷ codes "/metrics" ∷ codes "/favicon.ico" ∷ [];
  exclude_content_types =
      codes "image/" ∷ codes "video/" ∷ codes "audio/" ∷ codes "application/octet-stream" ∷ [];
}

pub record RegexLib (Regex : Type 0) : Type 0 where
  pub compile : Bytes → Option Regex
  pub find_all : Regex → Bytes → List Bytes
  pub text : Regex → Bytes
  -- `nonDigitPattern.ReplaceAllString(s, "")`
  pub only_digits : Bytes → Bytes
  -- the patterns that the source compiles
  pub ssn_pattern : Regex
  pub credit_card_pattern : Regex
  pub api_key_patterns : List Regex
  pub aws_key_pattern : Regex
  pub aws_secret_pattern : Regex
  pub private_key_pattern : Regex
  pub jwt_pattern : Regex
  pub password_field_pattern : Regex
  pub email_pattern : Regex
  pub ip_pattern : Regex
  -- `%d` of package fmt
  pub decimal : ℕ → Bytes

pub record Inspector (Regex : Type 0) : Type 0 where
  pub config : Config
  pub custom_re : Map Regex

pub record InspectionResult : Type 0 where
  pub inspected : Bool
  pub detections : List Detection
  pub should_block : Bool
  pub highest_severity : Bytes
  pub total_count : ℕ
  pub body_size : ℕ
  pub truncated : Bool

abbrev pub no_result : InspectionResult
no_result = record {
  inspected = false;
  detections = [];
  should_block = false;
  highest_severity = [];
  total_count = 0;
  body_size = 0;
  truncated = false;
}

unfoldable pub severity_level : Bytes → ℕ
severity_level severity =
    if same (to_lower severity) (codes "critical")
    then 4
    else if same (to_lower severity) (codes "high")
    then 3
    else if same (to_lower severity) (codes "medium")
    then 2
    else if same (to_lower severity) (codes "low")
    then 1
    else 0

unfoldable pub drop : ℕ → Bytes → Bytes
drop zero s = s
drop (suc n) [] = []
drop (suc n) (c ∷ s) = drop n s

unfoldable pub redact : Bytes → Bytes
redact s =
    if leb (length s) 8 then codes "****" else take 4 s ++ (codes "****" ++ drop (length s - 4) s)

unfoldable pub has_some_prefix : Bytes → List Bytes → Bool
has_some_prefix s prefixes = any (has_prefix s) prefixes

-- `shouldExcludeCfg`
unfoldable pub should_exclude : Config → Bytes → Bytes → Bool
should_exclude cfg content_type path =
    has_some_prefix content_type cfg.exclude_content_types || has_some_prefix path cfg.exclude_paths

unfoldable pub compile_all : {Regex : Type 0} → RegexLib Regex → Map Bytes → Map Regex
compile_all lib [] = []
compile_all lib ((name, pattern) ∷ rest) =
    let others = compile_all lib rest in
    elim (lib.compile pattern) [ none ↦ others | some re ↦ (name, re) ∷ others ]

unfoldable pub new_inspector : {Regex : Type 0} → RegexLib Regex → Option Config → Inspector Regex
new_inspector lib given =
    let config : Config = elim given [ none ↦ default_config | some c ↦ c ] in
    record { config = config; custom_re = compile_all lib config.custom_patterns }

unfoldable pub set_config :
    {Regex : Type 0} → RegexLib Regex → Inspector Regex → Config → Inspector Regex
set_config lib i config = record {
  config = config;
  custom_re = compile_all lib config.custom_patterns;
}
