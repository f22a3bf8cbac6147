-- ===== src/GraphQl/Sound.antt =====
-- What `analyzeQuery` of internal/app/graphql/graphql.go lets through.
use obsidian.Common.{
  ℕ, ◌≤◌, ◌≡◌, ◌≢◌, ◌↔◌, refl, ap, sym, ◌∙◌, inl, inr, true, false, List, [], ◌∷◌, arith, Bytes,
  same_iff, any, length, ltb, Bool-cases, All, codes,
}
use obsidian.GraphQl.{
  Config, AnalysisResult, empty_result, mentions_introspection, calculate_depth, count_aliases,
  has_long_field, words, tokens, calculate_complexity, count_fields,
}
use obsidian.GraphQl.Analyze.{analyze_limits, analyze_query}

-- The query respects every limit of the configuration.
pub record Respects (cfg : Config) (query : Bytes) : Type 0 where
  pub depth : calculate_depth query ≤ cfg.max_depth
  pub aliases : count_aliases query ≤ cfg.max_aliases
  pub fields : All (λ w. length w ≤ cfg.max_field_length) (words (tokens query))
  pub complexity : calculate_complexity cfg query ≤ cfg.max_complexity
  pub introspection : cfg.block_introspection ≡ true → mentions_introspection query ≡ false

any-All :
    (n : ℕ) (ws : List Bytes) → any (λ w. ltb n (length w)) ws ≡ false → All (λ w. length w ≤ n) ws
any-All n [] h = tt
any-All n (w ∷ ws) h = ground (arith, h, any-All n ws)

All-any :
    (n : ℕ) (ws : List Bytes) → All (λ w. length w ≤ n) ws → any (λ w. ltb n (length w)) ws ≡ false
All-any n [] h = refl
All-any n (w ∷ ws) h = ground (arith, h.0, All-any n ws h.1)

-- The tests of `analyze_limits`, and its result if all are passed.
analyze_limits-valid :
    (cfg : Config) (query : Bytes) (r : AnalysisResult)
    → (analyze_limits cfg query r).is_valid ≡ true
    → (calculate_depth query ≤ cfg.max_depth)
      × (count_aliases query ≤ cfg.max_aliases)
      × (has_long_field cfg query ≡ false)
      × (calculate_complexity cfg query ≤ cfg.max_complexity)
unfolding analyze_limits
analyze_limits-valid cfg query r h = ground (arith, h)

analyze_limits-result :
    (cfg : Config) (query : Bytes) (r : AnalysisResult)
    → calculate_depth query ≤ cfg.max_depth
    → count_aliases query ≤ cfg.max_aliases
    → has_long_field cfg query ≡ false
    → calculate_complexity cfg query ≤ cfg.max_complexity
    → analyze_limits cfg query r ≡ record r {
      depth = calculate_depth query;
      alias_count = count_aliases query;
      complexity = calculate_complexity cfg query;
      field_count = count_fields query;
    }
unfolding analyze_limits
analyze_limits-result cfg query r d a f c = ground (arith, d, a, f, c)

analyze_query-valid :
    (cfg : Config) (query : Bytes)
    → query ≢ []
    → (analyze_query cfg query empty_result).is_valid ≡ true
    → cfg.block_introspection ≡ true
    → mentions_introspection query ≡ false
unfolding analyze_query
analyze_query-valid cfg query ne h b = ground (arith, h, b, same_iff query [], ne)

analyze_query-limits :
    (cfg : Config) (query : Bytes)
    → query ≢ []
    → (cfg.block_introspection ≡ true → mentions_introspection query ≡ false)
    → (r : AnalysisResult) × (r.is_valid ≡ true)
      × (analyze_query cfg query empty_result ≡ analyze_limits cfg query r)
unfolding analyze_query
analyze_query-limits cfg query ne h = elim (Bool-cases (mentions_introspection query)) [
  | inl e ↦ (
    record empty_result {
      has_introspection = true;
      warnings = codes "introspection query detected" ∷ [];
    },
    refl,
    ground (arith, e, h, same_iff query [], ne),
  )
  | inr e ↦ (empty_result, refl, ground (arith, e, same_iff query [], ne))
]

-- A query that is not empty is valid exactly if it respects every limit.
pub analyze_query-Respects :
    (cfg : Config) (query : Bytes)
    → query ≢ []
    → ((analyze_query cfg query empty_result).is_valid ≡ true) ↔ Respects cfg query
unfolding has_long_field
analyze_query-Respects cfg query ne = (
  (λ h.
      let hidden = analyze_query-valid cfg query ne h in
      let (r, _, e) = analyze_query-limits cfg query ne hidden in
      let (d, a, f, c) =
        analyze_limits-valid cfg query r (ap (λ (x : AnalysisResult). x.is_valid) (sym e) ∙ h) in
      record {
        depth = d;
        aliases = a;
        fields = any-All cfg.max_field_length (words (tokens query)) f;
        complexity = c;
        introspection = hidden;
      }),
  (λ w.
      let (r, on, e) = analyze_query-limits cfg query ne w.introspection in
      let short = All-any cfg.max_field_length (words (tokens query)) w.fields in
      ap (λ (x : AnalysisResult). x.is_valid)
        (e ∙ analyze_limits-result cfg query r w.depth w.aliases short w.complexity)
      ∙ on),
)
