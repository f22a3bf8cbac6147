-- ===== src/Store/Line.antt =====
-- The pieces of a line of a rules file: fields, quoted texts and the list of actions.
use obsidian.Common.{
  ℕ, Bool, false, ◌&&◌, ◌||◌, ◌==◌, List, [], ◌∷◌, ◌++◌, Option, none, some, Bytes, same,
  trim_space, ends_in, without_last, if◌then◌else◌,
}

abbrev pub is_quote : ℕ → Bool
is_quote c = c == b'\'' || c == b'"'

-- The text before the first byte `c`, and that after it: `strings.IndexByte` and the two slices.
unfoldable pub until_byte : ℕ → Bytes → Option (Bytes × Bytes)
until_byte c [] = none
until_byte c (x ∷ s) =
    if x == c
    then some ([], s)
    else elim (until_byte c s) [ none ↦ none | some (before, after) ↦ some (x ∷ before, after) ]

-- `extractQuoted`: the first quoted text and what follows it; `none` where the last result is false.
unfoldable pub extract_quoted : Bytes → Option (Bytes × Bytes)
extract_quoted [] = none
extract_quoted (c ∷ s) =
    let later = extract_quoted s in if is_quote c then until_byte c s else later

unfoldable pub trim_quotes : Bytes → Bytes
trim_quotes [] = []
trim_quotes (c ∷ []) = c ∷ []
trim_quotes (c ∷ d ∷ s) =
    if is_quote c && ends_in c (d ∷ s) then without_last (d ∷ s) else c ∷ d ∷ s

unfoldable pub trim_quoted : Bytes → Bytes
trim_quoted s = trim_quotes (trim_space s)

-- The open quote after a byte.
unfoldable pub quote_after : Option ℕ → ℕ → Option ℕ
quote_after (some q) c = if c == q then none else some q
quote_after none c = if is_quote c then some c else none

-- A comma outside of quotes ends an action.
unfoldable pub ends_action : Option ℕ → ℕ → Bool
ends_action (some q) c = false
ends_action none c = c == b','

unfoldable pub add_action : Bytes → List Bytes → List Bytes
add_action cur rest = if same (trim_space cur) [] then rest else trim_space cur ∷ rest

-- The loop of `splitActions` with the open quote and the text of `cur`.
unfoldable pub split_from : Option ℕ → Bytes → Bytes → List Bytes
split_from q cur [] = add_action cur []
split_from q cur (c ∷ s) =
    let rest = split_from (quote_after q c) (if ends_action q c then [] else cur ++ c ∷ []) s in
    if ends_action q c then add_action cur rest else rest

unfoldable pub split_actions : Bytes → List Bytes
split_actions actions = split_from none [] actions
