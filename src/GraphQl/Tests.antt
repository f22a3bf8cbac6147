-- ===== src/GraphQl/Tests.antt =====
-- The limits on concrete queries.
use obsidian.Common.{
  ◌+◌, ◌≤◌, ◌≡◌, ◌≢◌, ◌↔◌, refl, true, [], ◌∷◌, ◌++◌, Bytes, codes, same, has_prefix, contains,
  to_lower,
}
use obsidian.GraphQl.{
  Config, default_config, empty_result, mentions_introspection, depth_from, calculate_depth, tokens,
  without_blanks, alias_matches, count_aliases, words, has_long_field, field_weights,
  calculate_complexity,
}
use obsidian.GraphQl.Analyze.{analyze_limits, analyze_query, analyze_all, analyze_batch}
use obsidian.GraphQl.Depth.{count, Reaches, calculate_depth_lem}
use obsidian.GraphQl.Sound.{Respects, analyze_query-Respects}
use obsidian.GraphQl.Batch.{Accepted, analyze_batch-Accepted}

abbrev sample : Bytes
sample = codes "query {u: users{id}}"

sample_depth : calculate_depth sample ≡ 2
unfolding calculate_depth depth_from
sample_depth = refl

sample_aliases : count_aliases sample ≡ 1
unfolding count_aliases alias_matches without_blanks tokens
sample_aliases = refl

sample_complexity : calculate_complexity default_config sample ≡ 30
unfolding calculate_complexity default_config field_weights contains has_prefix to_lower
    calculate_depth depth_from
sample_complexity = refl

calculate_depth_lem_example :
    ((p q : Bytes) → sample ≡ p ++ q → count b'{' p ≤ calculate_depth sample + count b'}' p)
    × Reaches (calculate_depth sample) sample
calculate_depth_lem_example = calculate_depth_lem sample

some_text : sample ≢ []
some_text = cc

analyze_query-Respects_example :
    ((analyze_query default_config sample empty_result).is_valid ≡ true)
    ↔ Respects default_config sample
analyze_query-Respects_example = analyze_query-Respects default_config sample some_text

abbrev batched : Config
unfolding default_config
batched = record default_config { allow_batching = true }

pair_valid : (analyze_batch batched (sample ∷ sample ∷ [])).is_valid ≡ true
unfolding analyze_batch analyze_all analyze_query analyze_limits default_config
    mentions_introspection calculate_complexity field_weights contains has_prefix to_lower
    calculate_depth depth_from count_aliases alias_matches without_blanks tokens has_long_field
    words same
pair_valid = refl

analyze_batch-Accepted_example :
    Accepted batched (sample ∷ sample ∷ []) (analyze_batch batched (sample ∷ sample ∷ []))
analyze_batch-Accepted_example = analyze_batch-Accepted batched (sample ∷ sample ∷ []) pair_valid
