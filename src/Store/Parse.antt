-- ===== src/Store/Parse.antt =====
-- parseSecRule and parseRulesFile.
use obsidian.Common.Int.{ℤ, pos}
use obsidian.Common.{
  fields, Bool, true, not, ◌&&◌, ◌||◌, List, [], ◌∷◌, ◌++◌, Option, none, some, Bytes, codes, same,
  has_prefix, to_lower, to_upper, trim_space, trim_prefix, ends_in, without_last, if◌then◌else◌,
}
use obsidian.Store.{Files, Rule, same_id, validate_rule_id_range}
use obsidian.Store.Line.{extract_quoted, split_actions, trim_quoted}

-- The rule before its actions are read.
abbrev pub blank_rule : Bytes → Bytes → Bytes → Rule
blank_rule target op source = record {
  id = pos 0;
  description = [];
  severity = [];
  enabled = true;
  category = codes "General";
  source = source;
  read_only = true;
  pattern = op;
  target_field = target;
  action = codes "log";
  block_status = pos 0;
  threshold = pos 0;
  time_window = pos 0;
  match_count = 0;
  last_match = [];
}

-- Tags that say nothing of the kind of attack.
unfoldable pub is_general_tag : Bytes → Bool
is_general_tag tag =
    has_prefix tag (codes "owasp_crs")
    || has_prefix tag (codes "paranoia")
    || has_prefix tag (codes "capec")
    || has_prefix tag (codes "pci")

unfoldable pub category_after : Bytes → Bytes → Bytes
category_after category tag =
    if is_general_tag (to_lower tag)
    then category
    else if has_prefix (to_lower tag) (codes "attack-")
        || has_prefix (to_lower tag) (codes "application-")
        || same category (codes "General")
    then tag
    else category

module _ {F : Type 0} (files : Files F) where
  -- The value of a number, or the old one where the text is none.
  abbrev pub number_or : Bytes → ℤ → ℤ
  number_or s old = elim (files.atoi s) [ none ↦ old | some n ↦ n ]

  -- One round of the loop over the actions.
  unfoldable pub apply_action : Rule → Bytes → Rule
  apply_action rule token =
      let lower = to_lower token in
      if same lower (codes "deny")
        || same lower (codes "drop")
        || same lower (codes "pass")
        || same lower (codes "log")
      then record rule { action = lower }
      else if same lower (codes "block")
      then record rule { action = codes "deny" }
      else if has_prefix lower (codes "id:")
      then record rule {
        id =
            number_or (trim_quoted (trim_prefix (trim_prefix token (codes "id:")) (codes "ID:")))
              rule.id;
      }
      else if has_prefix lower (codes "status:")
      then record rule {
        block_status =
            number_or (trim_quoted (trim_prefix token (codes "status:"))) rule.block_status;
      }
      else if has_prefix lower (codes "severity:")
      then record rule {
        severity =
            to_upper (
              trim_prefix (trim_quoted (trim_prefix token (codes "severity:")))
                (codes "severity:"));
      }
      else if has_prefix lower (codes "msg:")
      then record rule { description = trim_quoted (trim_prefix token (codes "msg:")) }
      else if has_prefix lower (codes "tag:")
      then record rule {
        category = category_after rule.category (trim_quoted (trim_prefix token (codes "tag:")));
      }
      else rule

  unfoldable pub apply_actions : Rule → List Bytes → Rule
  apply_actions rule [] = rule
  apply_actions rule (token ∷ tokens) = apply_actions (apply_action rule token) tokens

  -- The defaults of what the actions left out.
  unfoldable pub with_defaults : Rule → Rule
  with_defaults rule = record rule {
    description =
        if same rule.description []
        then codes "Rule " ++ files.decimal rule.id
        else rule.description;
    severity = if same rule.severity [] then codes "NOTICE" else rule.severity;
    block_status =
        if (same rule.action (codes "deny") || same rule.action (codes "block"))
          && same_id rule.block_status (pos 0)
        then pos 403
        else rule.block_status;
  }

  -- The end of `parseSecRule`, with `none` for its errors.
  unfoldable pub finish_rule : Bytes → Rule → Option Rule
  finish_rule source rule =
      if same_id rule.id (pos 0)
      then none
      else if same source (codes "custom") && not (validate_rule_id_range source rule.id)
      then none
      else some (with_defaults rule)

  unfoldable pub parse_fields : Bytes → Bytes → List Bytes → Option Rule
  parse_fields line source (directive ∷ target ∷ third ∷ others) = elim (extract_quoted line) [
    | none ↦ none
    | some (op, rest) ↦ elim (extract_quoted rest) [
      | none ↦ none
      | some (actions, after) ↦
          finish_rule source (apply_actions (blank_rule target op source) (split_actions actions))
    ]
  ]
  parse_fields line source _ = none

  unfoldable pub parse_sec_rule : Bytes → Bytes → Option Rule
  parse_sec_rule line source = parse_fields line source (fields line)

  -- What a whole directive adds to the rules.
  unfoldable pub directive : Bytes → Bytes → List Rule → List Rule
  directive source line rules =
      if has_prefix line (codes "SecRule ")
      then elim (parse_sec_rule line source) [ none ↦ rules | some rule ↦ rule ∷ rules ]
      else rules

  -- The lines are skipped that are blank or comments, unless a directive is being continued.
  unfoldable pub is_skipped : Bytes → Bytes → Bool
  is_skipped buf line = same buf [] && (same line [] || has_prefix line (codes "#"))

  -- `lineBuf` after a trimmed line.
  unfoldable pub buffer_after : Bytes → Bytes → Bytes
  buffer_after buf line =
      if is_skipped buf line
      then buf
      else if ends_in b'\\' line
      then buf ++ (without_last line ++ b' ' ∷ [])
      else []

  -- `parseRulesFile` on the lines of the scanner, with the text of `lineBuf`.
  unfoldable pub parse_lines : Bytes → Bytes → List Bytes → List Rule
  parse_lines source buf [] = if same buf [] then [] else directive source buf []
  parse_lines source buf (raw ∷ lines) =
      let line = trim_space raw in
      let rest = parse_lines source (buffer_after buf line) lines in
      if is_skipped buf line || ends_in b'\\' line
      then rest
      else directive source (buf ++ line) rest

  unfoldable pub parse_rules_file : Bytes → List Bytes → List Rule
  parse_rules_file source lines = parse_lines source [] lines
