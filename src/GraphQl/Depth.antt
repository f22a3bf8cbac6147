-- ===== src/GraphQl/Depth.antt =====
-- `calculateDepth` of internal/app/graphql/graphql.go against the definition of nesting: how many
-- more braces a prefix of the query opens than it closes.
use obsidian.Common.{
  ℕ, suc, ◌+◌, ◌-◌, ◌≤◌, ◌≡◌, refl, ap, inl, inr, ◌⊎◌, true, [], ◌∷◌, ◌++◌, arith, Bytes, ltb, ◌==◌,
  if◌then◌else◌, Bool-cases,
}
use obsidian.GraphQl.{depth_from, calculate_depth}

unfoldable pub count : ℕ → Bytes → ℕ
count b [] = 0
count b (c ∷ s) = (if c == b then 1 else 0) + count b s

-- The prefix `p` is nested as deep as `d`.
abbrev pub Reaches : ℕ → Bytes → Type 0
Reaches d query = (p : Bytes) × (q : Bytes) × (query ≡ p ++ q) × (count b'{' p ≡ d + count b'}' p)

deepest-depth_from : (o c d : ℕ) (s : Bytes) → d ≤ depth_from o c d s
unfolding depth_from
deepest-depth_from o c d [] = omega arith
deepest-depth_from o c d (x ∷ s) = ground (
  arith,
  deepest-depth_from (suc o) c (suc o - c) s,
  deepest-depth_from (suc o) c d s,
  deepest-depth_from o (suc c) d s,
  deepest-depth_from o c d s,
)

prefix-depth_from :
    (o c d : ℕ) (p q : Bytes)
    → o ≤ d + c
    → o + count b'{' p ≤ depth_from o c d (p ++ q) + (c + count b'}' p)
unfolding depth_from count
prefix-depth_from o c d [] q h = ground (arith, deepest-depth_from o c d q)
prefix-depth_from o c d (x ∷ p) q h = ground (
  arith,
  prefix-depth_from (suc o) c (suc o - c) p q,
  prefix-depth_from (suc o) c d p q,
  prefix-depth_from o (suc c) d p q,
  prefix-depth_from o c d p q,
)

-- The loop's result is its start, or the nesting of some prefix.
abbrev pub From : ℕ → ℕ → ℕ → Bytes → Type 0
From o c r s =
    (p : Bytes) × (q : Bytes) × (s ≡ p ++ q) × (o + count b'{' p ≡ r + (c + count b'}' p))

-- A brace in front of the rest, counted on.
longer-From :
    (o c o' c' r x : ℕ) (s : Bytes)
    → o + (if x == b'{' then 1 else 0) ≡ o'
    → c + (if x == b'}' then 1 else 0) ≡ c'
    → From o' c' r s
    → From o c r (x ∷ s)
unfolding count
longer-From o c o' c' r x s ho hc (p, q, e, n) =
    (x ∷ p, q, ap (λ (t : Bytes). x ∷ t) e, omega arith)

opened-From :
    (o c d r x : ℕ) (s : Bytes)
    → (x == b'{') ≡ true
    → (r ≡ (if ltb (c + d) (suc o) then suc o - c else d)) ⊎ From (suc o) c r s
    → (r ≡ d) ⊎ From o c r (x ∷ s)
unfolding count
opened-From o c d r x s opens (inr f) =
    inr (longer-From o c (suc o) c r x s (ground (arith, opens)) (ground (arith, opens)) f)
opened-From o c d r x s opens (inl e) = elim (Bool-cases (ltb (c + d) (suc o))) [
  | inl more ↦ inr (x ∷ [], s, refl, ground (arith, more, opens, e))
  | inr less ↦ inl (ground (arith, less, e))
]

depth_from-From :
    (o c d : ℕ) (s : Bytes) → (depth_from o c d s ≡ d) ⊎ From o c (depth_from o c d s) s
unfolding depth_from count
depth_from-From o c d [] = inl refl
depth_from-From o c d (x ∷ s) = elim (Bool-cases (x == b'{')) [
  | inl opens ↦ rw opens (opened-From o c d _ x s opens (depth_from-From (suc o) c _ s))
  | inr e ↦ elim (Bool-cases (x == b'}')) [
    | inl closes ↦
        rw (e, closes)
          (elim (depth_from-From o (suc c) d s) [
            | inl same ↦ inl same
            | inr f ↦
                inr (longer-From o c o (suc c) _ x s (ground (arith, e)) (ground (arith, closes)) f)
          ])
    | inr f ↦
        rw (e, f)
          (elim (depth_from-From o c d s) [
            | inl same ↦ inl same
            | inr g ↦ inr (longer-From o c o c _ x s (ground (arith, e)) (ground (arith, f)) g)
          ])
  ]
]

-- The depth of a query is the deepest nesting of its prefixes: no prefix opens more braces than
-- the depth and the braces that it closes, and some prefix opens just as many.
pub calculate_depth_lem :
    (query : Bytes)
    → ((p q : Bytes) → query ≡ p ++ q → count b'{' p ≤ calculate_depth query + count b'}' p)
      × Reaches (calculate_depth query) query
unfolding calculate_depth count
calculate_depth_lem query = (
  (λ p q e. let within = prefix-depth_from 0 0 0 p q (omega arith) in rw e (omega arith)),
  elim (depth_from-From 0 0 0 query) [
    | inl e ↦ ([], query, refl, ground (arith, e))
    | inr (p, q, e, n) ↦ (p, q, e, omega arith)
  ],
)
