-- ===== src/RespBody/Inspect.antt =====
-- Inspect: the detectors in their order, the sums over what they found, and the decision.
use obsidian.Common.Map.{Map}
use obsidian.Common.{
  ℕ, ◌+◌, ◌-◌, Bool, true, not, ◌&&◌, ltb, leb, List, [], ◌∷◌, ◌++◌, Bytes, codes, keep, length,
  take, if◌then◌else◌,
}
use obsidian.RespBody.{
  Config, Detection, InspectionResult, Inspector, LeakageType, RegexLib, api_key, aws_key,
  credit_card, custom, email_bulk, ip_bulk, jwt, no_result, password, private_key, redact,
  severity_level, should_exclude, ssn,
}
use obsidian.RespBody.Luhn.{luhn_check}

-- `matches[0]` of a list that has one.
abbrev pub first : List Bytes → Bytes
first [] = []
first (s ∷ ss) = s

abbrev pub medium : Bytes
medium = codes "medium"

module _ {Regex : Type 0} (lib : RegexLib Regex) where
  -- `detectPattern`, on the detections so far.
  unfoldable pub detect_pattern :
      Bytes → Regex → LeakageType → Bytes → List Detection → List Detection
  detect_pattern content pattern kind severity ds =
      let matches = lib.find_all pattern content in
      if ltb 0 (length matches)
      then ds
        ++ record {
          kind = kind;
          pattern = take 50 (lib.text pattern);
          count = length matches;
          severity = severity;
          redacted = redact (first matches);
        }
          ∷ []
      else ds

  -- The matches that are card numbers.
  abbrev pub is_card : Bytes → Bool
  is_card s =
      let digits = lib.only_digits s in
      leb 13 (length digits) && leb (length digits) 19 && luhn_check digits

  unfoldable pub detect_credit_card : Bytes → List Detection → List Detection
  detect_credit_card content ds =
      let cards = keep is_card (lib.find_all lib.credit_card_pattern content) in
      if ltb 0 (length cards)
      then ds
        ++ record {
          kind = credit_card;
          pattern = codes "credit_card";
          count = length cards;
          severity = codes "critical";
          redacted = redact (first cards);
        }
          ∷ []
      else ds

  unfoldable pub detect_bulk :
      Bytes → Regex → LeakageType → ℕ → Bytes → List Detection → List Detection
  detect_bulk content pattern kind threshold severity ds =
      let matches = lib.find_all pattern content in
      if leb threshold (length matches)
      then ds
        ++ record {
          kind = kind;
          pattern = codes "bulk_exposure";
          count = length matches;
          severity = severity;
          redacted =
              redact (first matches)
              ++ (codes " (and " ++ (lib.decimal (length matches - 1) ++ codes " more)"));
        }
          ∷ []
      else ds

  unfoldable pub detect_api_keys : Bytes → List Regex → List Detection → List Detection
  detect_api_keys content [] ds = ds
  detect_api_keys content (re ∷ res) ds =
      detect_api_keys content res (detect_pattern content re api_key (codes "high") ds)

  unfoldable pub detect_custom : Bytes → Map Regex → List Detection → List Detection
  detect_custom content [] ds = ds
  detect_custom content ((name, re) ∷ res) ds =
      let matches = lib.find_all re content in
      let found =
        if ltb 0 (length matches)
        then ds
          ++ record {
            kind = custom;
            pattern = name;
            count = length matches;
            severity = medium;
            redacted = redact (first matches);
          }
            ∷ []
        else ds in
      detect_custom content res found

  -- A detector runs where the configuration has it.
  abbrev pub when : Bool → (List Detection → List Detection) → List Detection → List Detection
  when on detect ds = if on then detect ds else ds

  unfoldable pub detect_all : Config → Map Regex → Bytes → List Detection
  detect_all cfg custom_re content =
      let ds1 =
        when cfg.detect_ssn (detect_pattern content lib.ssn_pattern ssn (codes "critical")) [] in
      let ds2 = when cfg.detect_credit_card (detect_credit_card content) ds1 in
      let ds3 = when cfg.detect_api_keys (detect_api_keys content lib.api_key_patterns) ds2 in
      let ds4 =
        when cfg.detect_aws_keys
          (λ ds.
            detect_pattern content lib.aws_secret_pattern aws_key (codes "critical")
              (detect_pattern content lib.aws_key_pattern aws_key (codes "critical") ds))
          ds3 in
      let ds5 =
        when cfg.detect_private_keys
          (detect_pattern content lib.private_key_pattern private_key (codes "critical")) ds4 in
      let ds6 = when cfg.detect_jwt (detect_pattern content lib.jwt_pattern jwt medium) ds5 in
      let ds7 =
        when cfg.detect_password_fields
          (detect_pattern content lib.password_field_pattern password (codes "high")) ds6 in
      let ds8 =
        when cfg.detect_bulk_email (detect_bulk content lib.email_pattern email_bulk 5 medium)
          ds7 in
      let ds9 =
        when cfg.detect_bulk_ip (detect_bulk content lib.ip_pattern ip_bulk 10 (codes "low")) ds8 in
      detect_custom content custom_re ds9

unfoldable pub higher : Bytes → Detection → Bytes
higher so_far d =
    if ltb (severity_level so_far) (severity_level d.severity) then d.severity else so_far

-- The loop over the detections: the highest severity from `so_far` on.
unfoldable pub highest : Bytes → List Detection → Bytes
highest so_far [] = so_far
highest so_far (d ∷ ds) = highest (higher so_far d) ds

unfoldable pub total : List Detection → ℕ
total [] = 0
total (d ∷ ds) = d.count + total ds

-- Whether the detections are to block the response.
unfoldable pub blocks : Config → List Detection → Bool
blocks cfg ds =
    cfg.block_on_detection
    && ltb 0 (length ds)
    && leb (severity_level cfg.min_severity_to_block) (severity_level (highest [] ds))

unfoldable pub inspect :
    {Regex : Type 0} → RegexLib Regex → Inspector Regex → Bytes → Bytes → Bytes → InspectionResult
inspect lib i body content_type path =
    let cfg = i.config in
    if not cfg.enabled
    then no_result
    else if should_exclude cfg content_type path
    then no_result
    else (let ds = detect_all lib cfg i.custom_re (take cfg.max_body_size body) in
        record {
          inspected = true;
          detections = ds;
          should_block = blocks cfg ds;
          highest_severity = highest [] ds;
          total_count = total ds;
          body_size = length body;
          truncated = ltb cfg.max_body_size (length body);
        })
