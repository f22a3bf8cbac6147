-- ===== src/Store/Words.antt =====
-- The lists of actions of a rule.
use obsidian.Common.{
  ℕ, ◌≡◌, ◌≢◌, refl, ap, sym, ◌∙◌, inl, inr, List, [], ◌∷◌, ◌++◌, append-nil, append_assoc, Option,
  none, some, arith, Bytes, All, same, same_iff, trim_space, trim_left, trim_right, join,
  if◌then◌else◌, Bool-cases,
}
use obsidian.Store.Line.{add_action, ends_action, quote_after, split_actions, split_from}

-- The quote that is open after a text, or `none` if a comma outside of quotes is in it.
unfoldable pub quotes : Option ℕ → Bytes → Option (Option ℕ)
quotes q [] = some q
quotes q (c ∷ s) = let rest = quotes (quote_after q c) s in if ends_action q c then none else rest

-- An action as it stands in a list: trimmed, not empty, its quotes closed, its commas quoted.
abbrev pub IsAction : Bytes → Type 0
IsAction s = (trim_space s ≡ s) × (s ≢ []) × (quotes none s ≡ some none)

split_from-append :
    (q q' : Option ℕ) (cur s rest : Bytes)
    → quotes q s ≡ some q'
    → split_from q cur (s ++ rest) ≡ split_from q' (cur ++ s) rest
unfolding quotes split_from
split_from-append q q' cur [] rest h = ground (arith, h, append-nil cur)
split_from-append q q' cur (c ∷ s) rest h = elim (Bool-cases (ends_action q c)) [
  | inl e ↦ absurd (ground (arith, e, h))
  | inr e ↦ ground (
    arith,
    e,
    append_assoc cur (c ∷ []) s,
    split_from-append (quote_after q c) q' (cur ++ c ∷ []) s rest (ground (arith, e, h)),
  )
]

split_from-comma :
    (cur s : Bytes) → split_from none cur (b',' ∷ s) ≡ add_action cur (split_from none [] s)
unfolding split_from ends_action quote_after
split_from-comma cur s = refl

add_action_lem : (s : Bytes) (rest : List Bytes) → IsAction s → add_action s rest ≡ s ∷ rest
unfolding add_action
add_action_lem s rest (t, n, q) = ground (arith, t, n, same_iff s [])

no_actions : split_actions [] ≡ []
unfolding split_actions split_from add_action trim_space trim_right trim_left same
no_actions = refl

split_from_end : (cur : Bytes) → split_from none cur [] ≡ add_action cur []
unfolding split_from
split_from_end cur = refl

-- A list of actions, joined by commas, is split into the actions again, if each is trimmed and not
-- empty, its quotes are closed and its commas quoted.
pub split_actions-join :
    (actions : List Bytes) → All IsAction actions → split_actions (join b',' actions) ≡ actions
unfolding split_actions join
split_actions-join [] h = no_actions
split_actions-join (s ∷ []) h =
    ap (split_from none []) (sym (append-nil s))
    ∙ split_from-append none none [] s [] h.0.2
    ∙ split_from_end s
    ∙ add_action_lem s [] h.0
split_actions-join (s ∷ t ∷ actions) h =
    split_from-append none none [] s (b',' ∷ join b',' (t ∷ actions)) h.0.2
    ∙ split_from-comma s (join b',' (t ∷ actions))
    ∙ ap (add_action s) (split_actions-join (t ∷ actions) h.1)
    ∙ add_action_lem s (t ∷ actions) h.0
