-- ===== src/GraphQl/Batch.antt =====
-- What the batches of `AnalyzeBody` of internal/app/graphql/graphql.go let through.
use mathlib.Core.Path.{subst}
use obsidian.Common.{
  ℕ, ◌+◌, ◌≤◌, ◌≡◌, refl, ap, sym, ◌∙◌, inl, inr, true, List, [], ◌∷◌, arith, Bytes, length, ltb,
  if◌then◌else◌, Bool-cases, All,
}
use obsidian.GraphQl.{Config, AnalysisResult, empty_result}
use obsidian.GraphQl.Analyze.{analyze_query, analyze_all, analyze_batch, added}

abbrev pub Passes : Config → Bytes → Type 0
Passes cfg query = (analyze_query cfg query empty_result).is_valid ≡ true

unfoldable pub total : Config → List Bytes → ℕ
total cfg [] = 0
total cfg (query ∷ queries) = (analyze_query cfg query empty_result).complexity + total cfg queries

unfoldable pub deepest : Config → List Bytes → ℕ
deepest cfg [] = 0
deepest cfg (query ∷ queries) =
    let rest = deepest cfg queries in
    let d = (analyze_query cfg query empty_result).depth in if ltb d rest then rest else d

-- What a valid batch has.
pub record Accepted (cfg : Config) (batch : List Bytes) (r : AnalysisResult) : Type 0 where
  pub allowed : cfg.allow_batching ≡ true
  pub size : length batch ≤ cfg.max_batch_size
  pub each : All (Passes cfg) batch
  pub complexity : r.complexity ≡ total cfg batch
  pub in_limit : total cfg batch ≤ cfg.max_complexity
  pub depth : r.depth ≡ deepest cfg batch

analyze_all-next :
    (cfg : Config) (result : AnalysisResult) (query : Bytes) (queries : List Bytes)
    → Passes cfg query
    → analyze_all cfg result (query ∷ queries)
      ≡ analyze_all cfg (added result (analyze_query cfg query empty_result)) queries
unfolding analyze_all
analyze_all-next cfg result query queries h = rw h refl

-- The end of the loop accepted the totals `r`, which began at `result`.
abbrev pub Totals : Config → AnalysisResult → List Bytes → AnalysisResult → Type 0
Totals cfg result queries r =
    All (Passes cfg) queries
    × (r.complexity ≡ result.complexity + total cfg queries)
    × (result.complexity + total cfg queries ≤ cfg.max_complexity)
    × (r.depth
        ≡ (if ltb result.depth (deepest cfg queries) then deepest cfg queries else result.depth))

Totals-next :
    (cfg : Config) (result r : AnalysisResult) (query : Bytes) (queries : List Bytes)
    → Passes cfg query
    → Totals cfg (added result (analyze_query cfg query empty_result)) queries r
    → Totals cfg result (query ∷ queries) r
unfolding total deepest
Totals-next cfg result r query queries h (all, c, m, d) =
    ((h, all), omega arith, omega arith, ground (arith, d))

analyze_all-valid :
    (cfg : Config) (result : AnalysisResult) (queries : List Bytes)
    → (analyze_all cfg result queries).is_valid ≡ true
    → Totals cfg result queries (analyze_all cfg result queries)
unfolding analyze_all total deepest
analyze_all-valid cfg result [] h = ground (arith, h)
analyze_all-valid cfg result (query ∷ queries) h =
    elim (Bool-cases ((analyze_query cfg query empty_result).is_valid)) [
      | inl e ↦
          let next = added result (analyze_query cfg query empty_result) in
          let step = analyze_all-next cfg result query queries e in
          subst (Totals cfg result (query ∷ queries)) (sym step) (
            Totals-next cfg result (analyze_all cfg next queries) query queries e (
              analyze_all-valid cfg next queries
                (ap (λ (x : AnalysisResult). x.is_valid) (sym step) ∙ h)))
      | inr e ↦ ground (arith, e, h)
    ]

-- The totals at the beginning of a batch.
abbrev pub start : List Bytes → AnalysisResult
start batch = record empty_result { is_batched = true; batch_size = length batch }

analyze_batch-valid :
    (cfg : Config) (batch : List Bytes)
    → (analyze_batch cfg batch).is_valid ≡ true
    → (cfg.allow_batching ≡ true)
      × (length batch ≤ cfg.max_batch_size)
      × (analyze_batch cfg batch ≡ analyze_all cfg (start batch) batch)
unfolding analyze_batch
analyze_batch-valid cfg batch h = ground (arith, h)

-- A valid batch is allowed and not too long, each of its queries is valid by itself, and it has
-- the sum of their complexities, within the limit, and the greatest of their depths.
pub analyze_batch-Accepted :
    (cfg : Config) (batch : List Bytes)
    → (analyze_batch cfg batch).is_valid ≡ true
    → Accepted cfg batch (analyze_batch cfg batch)
analyze_batch-Accepted cfg batch h =
    let (on, size, e) = analyze_batch-valid cfg batch h in
    let (all, c, m, d) = subst (Totals cfg (start batch) batch) (sym e) (
      analyze_all-valid cfg (start batch) batch
        (ap (λ (x : AnalysisResult). x.is_valid) (sym e) ∙ h)) in
    record {
      allowed = on;
      size = size;
      each = all;
      complexity = omega arith;
      in_limit = omega arith;
      depth = ground (arith, d);
    }
