-- ===== src/Common/Text.antt =====
-- Go strings as lists of bytes, with the tests of package strings that the program uses.
use Prim.Native.Nat.{ℕ, ◌+◌, ◌-◌}
use Prim.Native.Char.{code}
use Prim.Native.String.{String}
use mathlib.Core.Bool.{Bool, true, false, not, ◌&&◌, ◌||◌}
use mathlib.Core.List.{List, [], ◌∷◌, ◌++◌}
use mathlib.Core.Logic.{◌↔◌, ◌≢◌, inl, inr}
use mathlib.Core.Path.{◌≡◌, refl, ap}
use native.Mathlib.Omega.{arith}
use obsidian.Common.Lists.{length, All}
use obsidian.Common.Tests.{◌==◌, leb, Bool-cases, if◌then◌else◌}

abbrev pub Bytes : Type 0
Bytes = List ℕ

-- The code points of a literal; these are its bytes when the text is ASCII.
abbrev pub codes : String → Bytes
codes String.[] = []
codes (String.◌∷◌ c s) = code c ∷ codes s

-- `a == b` on strings.
unfoldable pub same : Bytes → Bytes → Bool
same [] [] = true
same (x ∷ xs) (y ∷ ys) = x == y && same xs ys
same _ _ = false

pub same_iff : (a b : Bytes) → (same a b ≡ true) ↔ (a ≡ b)
unfolding same
same_iff (x ∷ a) (y ∷ b) = ground (arith, same_iff a b)
same_iff _ _ = ground arith

pub same_refl : (a : Bytes) → same a a ≡ true
same_refl a = (same_iff a a).1 refl

-- `strings.HasPrefix(s, p)`.
unfoldable pub has_prefix : Bytes → Bytes → Bool
has_prefix s [] = true
has_prefix [] (y ∷ p) = false
has_prefix (x ∷ s) (y ∷ p) = x == y && has_prefix s p

-- Two prefixes of one text that are equally long are equal.
pub has_prefix_unique :
    (s p q : Bytes) → has_prefix s p ≡ true → has_prefix s q ≡ true → length p ≡ length q → p ≡ q
unfolding has_prefix
has_prefix_unique s [] [] hp hq e = refl
has_prefix_unique s [] (y ∷ q) hp hq e = absurd (omega arith)
has_prefix_unique s (x ∷ p) [] hp hq e = absurd (omega arith)
has_prefix_unique [] (x ∷ p) (y ∷ q) hp hq e = cc
has_prefix_unique (z ∷ s) (x ∷ p) (y ∷ q) hp hq e = ground (arith, has_prefix_unique s p q)

-- `strings.ToLower` on ASCII text.
unfoldable pub to_lower : Bytes → Bytes
to_lower [] = []
to_lower (c ∷ s) = (if leb b'A' c && leb c b'Z' then c + 32 else c) ∷ to_lower s

-- The white space of ASCII, as `strings.TrimSpace` knows it.
abbrev pub is_space : ℕ → Bool
is_space c = c == b' ' || (leb 9 c && leb c 13)

unfoldable pub trim_left : Bytes → Bytes
trim_left [] = []
trim_left (c ∷ s) = if is_space c then trim_left s else c ∷ s

unfoldable pub trim_right : Bytes → Bytes
trim_right [] = []
trim_right (c ∷ s) = let rest = trim_right s in if is_space c && same rest [] then [] else c ∷ rest

unfoldable pub trim_space : Bytes → Bytes
trim_space s = trim_right (trim_left s)

-- `strings.Contains(s, p)`.
unfoldable pub contains : Bytes → Bytes → Bool
contains [] p = has_prefix [] p
contains (c ∷ s) p = let rest = contains s p in has_prefix (c ∷ s) p || rest

-- `strings.Split(s, sep)` for a separator of one byte: the parts between the separators.
unfoldable pub split_on : ℕ → Bytes → List Bytes
split_on sep [] = [] ∷ []
split_on sep (c ∷ s) = elim (split_on sep s) [
  | [] ↦ (c ∷ []) ∷ []
  | part ∷ parts ↦ if c == sep then [] ∷ part ∷ parts else (c ∷ part) ∷ parts
]

-- What follows the first `length p` bytes.
abbrev pub drop_prefix : Bytes → Bytes → Bytes
drop_prefix s [] = s
drop_prefix [] (y ∷ p) = []
drop_prefix (x ∷ s) (y ∷ p) = drop_prefix s p

-- `strings.TrimPrefix(s, p)`.
unfoldable pub trim_prefix : Bytes → Bytes → Bytes
trim_prefix s p = if has_prefix s p then drop_prefix s p else s

-- What the parts join to with the separator between them.
unfoldable pub join : ℕ → List Bytes → Bytes
join sep [] = []
join sep (part ∷ []) = part
join sep (part ∷ other ∷ parts) = part ++ (sep ∷ join sep (other ∷ parts))

join_cons :
    (sep c : ℕ) (s : Bytes) (parts : List Bytes)
    → join sep parts ≡ s
    → join sep (elim parts [
      | [] ↦ (c ∷ []) ∷ []
      | part ∷ rest ↦ if c == sep then [] ∷ part ∷ rest else (c ∷ part) ∷ rest
    ])
      ≡ c ∷ s
unfolding join
join_cons sep c s [] h = ap (◌∷◌ c) h
join_cons sep c s (part ∷ []) h = ground arith
join_cons sep c s (part ∷ other ∷ rest) h = ground arith

pub join-split_on : (sep : ℕ) (s : Bytes) → join sep (split_on sep s) ≡ s
unfolding join split_on
join-split_on sep [] = refl
join-split_on sep (c ∷ s) = join_cons sep c s (split_on sep s) (join-split_on sep s)

pub drop_prefix-append : (s p : Bytes) → has_prefix s p ≡ true → p ++ drop_prefix s p ≡ s
unfolding has_prefix
drop_prefix-append s [] h = refl
drop_prefix-append [] (y ∷ p) h = cc
drop_prefix-append (x ∷ s) (y ∷ p) h = ground (arith, drop_prefix-append s p)

pub trim_prefix-append : (s p : Bytes) → has_prefix s p ≡ true → p ++ trim_prefix s p ≡ s
unfolding trim_prefix
trim_prefix-append s p h = ground (arith, drop_prefix-append s p, h)

-- There is always a part.
split_on_cons :
    (sep : ℕ) (s : Bytes) → (part : Bytes) × (parts : List Bytes) × (split_on sep s ≡ part ∷ parts)
unfolding split_on
split_on_cons sep [] = ([], [], refl)
split_on_cons sep (c ∷ s) =
    let (part, parts, e) = split_on_cons sep s in
    elim (Bool-cases (c == sep)) [
      | inl t ↦ ([], part ∷ parts, ground (arith, e, t))
      | inr f ↦ (c ∷ part, parts, ground (arith, e, f))
    ]

pub split_on-append :
    (sep : ℕ) (part s : Bytes)
    → All (λ c. c ≢ sep) part
    → split_on sep (part ++ (sep ∷ s)) ≡ part ∷ split_on sep s
unfolding split_on
split_on-append sep [] s h = let (part, parts, e) = split_on_cons sep s in ground (arith, e)
split_on-append sep (c ∷ part) s h = ground (arith, split_on-append sep part s h.1, h.0)

pub split_on_single :
    (sep : ℕ) (part : Bytes) → All (λ c. c ≢ sep) part → split_on sep part ≡ part ∷ []
unfolding split_on
split_on_single sep [] h = refl
split_on_single sep (c ∷ part) h = ground (arith, split_on_single sep part h.1, h.0)

-- `strings.ToUpper` on ASCII text.
unfoldable pub to_upper : Bytes → Bytes
to_upper [] = []
to_upper (c ∷ s) = (if leb b'a' c && leb c b'z' then c - 32 else c) ∷ to_upper s

-- `strings.HasSuffix(s, c)` for one byte.
unfoldable pub ends_in : ℕ → Bytes → Bool
ends_in c [] = false
ends_in c (x ∷ []) = x == c
ends_in c (x ∷ y ∷ s) = ends_in c (y ∷ s)

-- `s[:len(s)-1]`
unfoldable pub without_last : Bytes → Bytes
without_last [] = []
without_last (x ∷ []) = []
without_last (x ∷ y ∷ s) = x ∷ without_last (y ∷ s)

-- `strings.Fields`, with the part of a field that was read.
unfoldable pub fields_from : Bytes → Bytes → List Bytes
fields_from cur [] = if same cur [] then [] else cur ∷ []
fields_from cur (c ∷ s) =
    let rest = fields_from (if is_space c then [] else cur ++ c ∷ []) s in
    if is_space c && not (same cur []) then cur ∷ rest else rest

unfoldable pub fields : Bytes → List Bytes
fields s = fields_from [] s
