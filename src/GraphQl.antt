-- ===== src/GraphQl.antt =====
-- internal/app/graphql/graphql.go: the limits on GraphQL queries. Text is ASCII. The limits and the
-- weights of the configuration are natural numbers. `Decoder` stands for encoding/json.
pub mod Depth
pub mod Analyze
pub mod Sound
pub mod Batch
mod Tests
use obsidian.Common.{
  ℕ, zero, suc, ◌+◌, ◌*◌, ◌-◌, Bool, true, false, not, ◌&&◌, ◌||◌, List, [], ◌∷◌, ◌++◌, Option,
  none, some, Bytes, codes, same, any, length, to_lower, contains, has_prefix, take, trim_space,
  ltb, leb, ◌==◌, if◌then◌else◌,
}
use obsidian.Common.Map.{Map, is_some}

pub data Error : Type 0 where
  query_too_deep query_too_complex introspection_blocked batching_disabled : Error
  field_too_long too_many_aliases malformed_query batch_too_large : Error

pub record Config : Type 0 where
  pub enabled : Bool
  pub max_depth : ℕ
  pub max_complexity : ℕ
  pub block_introspection : Bool
  pub allow_batching : Bool
  pub max_batch_size : ℕ
  pub max_aliases : ℕ
  pub max_field_length : ℕ
  pub field_complexity_map : Map ℕ

unfoldable pub default_config : Config
default_config = record {
  enabled = true;
  max_depth = 10;
  max_complexity = 1000;
  block_introspection = true;
  allow_batching = false;
  max_batch_size = 5;
  max_aliases = 20;
  max_field_length = 64;
  field_complexity_map =
      (codes "users", 10)
      ∷ (codes "allUsers", 50)
      ∷ (codes "transactions", 20)
      ∷ (codes "logs", 15)
      ∷ [];
}

pub record AnalysisResult : Type 0 where
  pub is_valid : Bool
  pub error : Option Error
  pub depth : ℕ
  pub complexity : ℕ
  pub alias_count : ℕ
  pub field_count : ℕ
  pub is_batched : Bool
  pub batch_size : ℕ
  pub has_introspection : Bool
  pub warnings : List Bytes

-- `&AnalysisResult{IsValid: true}`
abbrev pub empty_result : AnalysisResult
empty_result = record {
  is_valid = true;
  error = none;
  depth = 0;
  complexity = 0;
  alias_count = 0;
  field_count = 0;
  is_batched = false;
  batch_size = 0;
  has_introspection = false;
  warnings = [];
}

abbrev pub failed : AnalysisResult → Error → AnalysisResult
failed r e = record r { is_valid = false; error = some e }

-- The query of one request, and the queries of a batch, of a body that has that form.
pub record Decoder : Type 0 where
  pub one : Bytes → Option Bytes
  pub many : Bytes → Option (List Bytes)

unfoldable pub mentions_introspection : Bytes → Bool
mentions_introspection query =
    let lower = to_lower query in
    contains lower (codes "__schema")
    || contains lower (codes "__type")
    || contains lower (codes "__typename")

-- One step of the loop of `calculateDepth`: the current depth, which may go below zero, is
-- the number of opened braces less that of closed ones.
unfoldable pub depth_from : ℕ → ℕ → ℕ → Bytes → ℕ
depth_from opened closed deepest [] = deepest
depth_from opened closed deepest (c ∷ s) =
    if c == b'{'
    then depth_from (suc opened) closed
        (if ltb (closed + deepest) (suc opened) then suc opened - closed else deepest) s
    else if c == b'}'
    then depth_from opened (suc closed) deepest s
    else depth_from opened closed deepest s

unfoldable pub calculate_depth : Bytes → ℕ
calculate_depth query = depth_from 0 0 0 query

-- `\w` and `\s` of package regexp.
abbrev pub is_word : ℕ → Bool
is_word c =
    (leb b'0' c && leb c b'9')
    || (leb b'A' c && leb c b'Z')
    || (leb b'a' c && leb c b'z')
    || c == b'_'

abbrev pub is_blank : ℕ → Bool
is_blank c = c == b' ' || c == 9 || c == 10 || c == 12 || c == 13

-- A text as the patterns see it: its longest words, and what stands between them.
pub data Token : Type 0 where
  word : Bytes → Token
  colon blank other : Token

abbrev pub push : ℕ → List Token → List Token
push c (word w ∷ ts) = word (c ∷ w) ∷ ts
push c ts = word (c ∷ []) ∷ ts

unfoldable pub tokens : Bytes → List Token
tokens [] = []
tokens (c ∷ s) =
    let rest = tokens s in
    if is_word c
    then push c rest
    else (if c == b':' then colon else if is_blank c then blank else other) ∷ rest

unfoldable pub without_blanks : List Token → List Token
without_blanks [] = []
without_blanks (blank ∷ ts) = without_blanks ts
without_blanks (word w ∷ ts) = word w ∷ without_blanks ts
without_blanks (colon ∷ ts) = colon ∷ without_blanks ts
without_blanks (other ∷ ts) = other ∷ without_blanks ts

-- The matches of `\w+\s*:\s*\w+`, which do not overlap.
unfoldable pub alias_matches : List Token → ℕ
alias_matches [] = 0
alias_matches (word a ∷ colon ∷ word b ∷ ts) = suc (alias_matches ts)
alias_matches (t ∷ ts) = alias_matches ts

unfoldable pub count_aliases : Bytes → ℕ
count_aliases query = alias_matches (without_blanks (tokens query))

-- The matches of `\b(\w+)\b`.
unfoldable pub words : List Token → List Bytes
words [] = []
words (word w ∷ ts) = w ∷ words ts
words (t ∷ ts) = words ts

unfoldable pub has_long_field : Config → Bytes → Bool
has_long_field cfg query = any (λ w. ltb cfg.max_field_length (length w)) (words (tokens query))

unfoldable pub field_weights : Bytes → Map ℕ → ℕ
field_weights lower [] = 0
field_weights lower ((field, weight) ∷ m) =
    (if contains lower (to_lower field) then weight else 0) + field_weights lower m

unfoldable pub calculate_complexity : Config → Bytes → ℕ
calculate_complexity cfg query =
    let lower = to_lower query in
    calculate_depth query * 10
    + field_weights lower cfg.field_complexity_map
    + (if contains lower (codes "first:")
          || contains lower (codes "last:")
          || contains lower (codes "limit:")
          || contains lower (codes "take:")
        then 20
        else 0)
    + (if contains lower (codes "edges") && contains lower (codes "node") then 30 else 0)

abbrev pub keywords : List Bytes
keywords =
    codes "query"
    ∷ codes "mutation"
    ∷ codes "subscription"
    ∷ codes "fragment"
    ∷ codes "on"
    ∷ codes "true"
    ∷ codes "false"
    ∷ codes "null"
    ∷ codes "type"
    ∷ []

-- The matches of `\b([a-zA-Z_]\w*)\b`: the words that no digit begins.
abbrev pub is_name : Bytes → Bool
is_name [] = false
is_name (c ∷ w) = not (leb b'0' c && leb c b'9')

unfoldable pub count_names : List Bytes → ℕ
count_names [] = 0
count_names (w ∷ ws) =
    (if is_name w && not (any (same (to_lower w)) keywords) then 1 else 0) + count_names ws

unfoldable pub count_fields : Bytes → ℕ
count_fields query = count_names (words (tokens query))
