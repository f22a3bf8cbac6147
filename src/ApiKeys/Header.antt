-- ===== src/ApiKeys/Header.antt =====
-- `ExtractKeyFromHeader` of internal/app/apikeys/apikeys.go, for an ASCII header.
use obsidian.Common.{
  ℕ, ◌≡◌, ◌≢◌, refl, ◌⊎◌, true, false, ◌||◌, [], ◌∷◌, ◌++◌, Option, none, some, arith, Bytes, ◌==◌,
  codes, same, same_iff, has_prefix, to_lower, is_space, trim_left, trim_right, trim_space,
  if◌then◌else◌, All,
}

-- `strings.SplitN(s, sep, 2)` when it gives two parts.
unfoldable pub cut : ℕ → Bytes → Option (Bytes × Bytes)
cut sep [] = none
cut sep (c ∷ s) =
    let rest = cut sep s in
    if c == sep then some ([], s) else elim rest [ none ↦ none | some (a, b) ↦ some (c ∷ a, b) ]

unfoldable pub extract_key_from_header : Bytes → Bytes
extract_key_from_header header = elim (cut b' ' header) [
  | none ↦ []
  | some (scheme, rest) ↦
      let token = trim_space rest in
      if same (to_lower scheme) (codes "bearer") || same (to_lower scheme) (codes "apikey")
      then if has_prefix token (codes "obs_") then token else []
      else []
]

cut-append : (sep : ℕ) (a b : Bytes) → All (λ c. c ≢ sep) a → cut sep (a ++ sep ∷ b) ≡ some (a, b)
unfolding cut
cut-append sep [] b h = ground arith
cut-append sep (c ∷ a) b h = ground (arith, cut-append sep a b h.1, h.0)

trim_right-plain : (s : Bytes) → All (λ c. is_space c ≡ false) s → trim_right s ≡ s
unfolding trim_right same
trim_right-plain [] h = refl
trim_right-plain (c ∷ s) h = ground (arith, h.0, trim_right-plain s h.1)

trim_space-plain : (s : Bytes) → All (λ c. is_space c ≡ false) s → trim_space s ≡ s
unfolding trim_space trim_left
trim_space-plain [] h = trim_right-plain [] h
trim_space-plain (c ∷ s) h = rw (h.0, trim_left) (trim_right-plain (c ∷ s) h)

extract_key-cut :
    (header scheme token : Bytes)
    → cut b' ' header ≡ some (scheme, token)
    → trim_space token ≡ token
    → has_prefix token (codes "obs_") ≡ true
    → (to_lower scheme ≡ codes "bearer") ⊎ (to_lower scheme ≡ codes "apikey")
    → extract_key_from_header header ≡ token
unfolding extract_key_from_header
extract_key-cut header scheme token e plain named known = ground (
  arith,
  e,
  plain,
  named,
  known,
  same_iff (to_lower scheme) (codes "bearer"),
  same_iff (to_lower scheme) (codes "apikey"),
)

-- The key of a header is found again: a scheme that reads `bearer` or `apikey` in any case, one
-- space, and a key without white space that starts with `obs_`.
pub extract_key_from_header_roundtrip :
    (scheme key : Bytes)
    → (to_lower scheme ≡ codes "bearer") ⊎ (to_lower scheme ≡ codes "apikey")
    → All (λ c. c ≢ b' ') scheme
    → All (λ c. is_space c ≡ false) key
    → extract_key_from_header (scheme ++ b' ' ∷ (codes "obs_" ++ key)) ≡ codes "obs_" ++ key
unfolding has_prefix
extract_key_from_header_roundtrip scheme key known one plain =
    let token : Bytes = codes "obs_" ++ key in
    extract_key-cut (scheme ++ b' ' ∷ token) scheme token (cut-append b' ' scheme token one)
      (trim_space-plain token (refl, (refl, (refl, (refl, plain))))) refl known
