-- ===== src/RespBody/Tests.antt =====
-- The inspection on small inputs: a pattern is a text that it matches.
use obsidian.Common.{
  ◌≡◌, ◌↔◌, refl, true, false, [], ◌∷◌, ◌++◌, some, arith, Bytes, codes, contains, take,
  if◌then◌else◌,
}
use obsidian.RespBody.{Inspector, RegexLib, default_config, drop, redact, should_exclude}
use obsidian.RespBody.Blocked.{Severe, inspect-Severe}
use obsidian.RespBody.Inspect.{detect_all, inspect}
use obsidian.RespBody.Luhn.{luhn_check, luhn_check_detects, luhn_digit, luhn_sum}

abbrev literal : RegexLib Bytes
literal = record {
  compile = λ s. some s;
  find_all = λ re s. if contains s re then re ∷ [] else [];
  text = λ re. re;
  only_digits = λ s. s;
  ssn_pattern = codes "123-45-6789";
  credit_card_pattern = codes "4111111111111111";
  api_key_patterns = [];
  aws_key_pattern = codes "AKIA";
  aws_secret_pattern = codes "aws_secret";
  private_key_pattern = codes "-----BEGIN";
  jwt_pattern = codes "eyJ";
  password_field_pattern = codes "password";
  email_pattern = codes "@";
  ip_pattern = codes "10.0.0.1";
  decimal = λ n. [];
}

abbrev strict : Inspector Bytes
strict = record { config = record default_config { block_on_detection = true }; custom_re = [] }

-- Seven of the nine digits of a social security number stay readable.
redact_ssn : redact (codes "123-45-6789") ≡ codes "123-****6789"
unfolding redact drop
redact_ssn = refl

inspect-Severe_example :
    ((inspect literal strict
        (codes "ssn 123-45-6789")
        (codes "text/html")
        (codes "/a")).should_block
      ≡ true)
    ↔ ((strict.config.enabled ≡ true)
        × (should_exclude strict.config (codes "text/html") (codes "/a") ≡ false)
        × (strict.config.block_on_detection ≡ true)
        × Severe strict.config (
            detect_all literal strict.config []
              (take strict.config.max_body_size (codes "ssn 123-45-6789"))))
inspect-Severe_example =
    inspect-Severe literal strict (codes "ssn 123-45-6789") (codes "text/html") (codes "/a")

card_passes : luhn_check (codes "411111111111" ++ (b'1' ∷ codes "111")) ≡ true
unfolding luhn_check luhn_sum luhn_digit
card_passes = refl

luhn_check_detects_example : luhn_check (codes "411111111111" ++ (b'7' ∷ codes "111")) ≡ false
luhn_check_detects_example =
    luhn_check_detects (codes "411111111111") (codes "111") b'1' b'7' (omega arith, omega arith)
      (omega arith, omega arith) (λ e. ground arith) card_passes
