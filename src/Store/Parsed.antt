-- ===== src/Store/Parsed.antt =====
-- What the rules of a file satisfy.
use obsidian.Common.Int.{pos}
use obsidian.Common.{◌≡◌, ◌≢◌, true, [], Bytes, codes}
use obsidian.Store.{Files, Rule, validate_rule_id_range}

-- What the loop over the actions leaves as it was.
abbrev pub Same : Rule → Rule → Type 0
Same a b =
    (a.source ≡ b.source)
    × (a.read_only ≡ b.read_only)
    × (a.enabled ≡ b.enabled)
    × (a.pattern ≡ b.pattern)

module _ {F : Type 0} (files : Files F) where
  -- A rule of a file has an identifier, one of the range if the file is the custom one; it is enabled,
  -- read-only, of the file's source and with a description and a severity, and if it denies a
  -- request, it has a status to answer.
  pub record WellFormed (source : Bytes) (rule : Rule) : Type 0 where
    pub has_number : rule.id ≢ pos 0
    pub in_range : source ≡ codes "custom" → validate_rule_id_range source rule.id ≡ true
    pub is_enabled : rule.enabled ≡ true
    pub is_read_only : rule.read_only ≡ true
    pub of_source : rule.source ≡ source
    pub described : rule.description ≢ []
    pub rated : rule.severity ≢ []
    pub answers : rule.action ≡ codes "deny" → rule.block_status ≢ pos 0
