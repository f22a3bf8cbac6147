-- ===== src/GraphQl/Analyze.antt =====
-- The limits of internal/app/graphql/graphql.go on what a query counts: `analyzeQuery` and `AnalyzeBody`.
use obsidian.Common.{
  ◌+◌, Bool, true, not, ◌&&◌, ◌||◌, List, [], ◌∷◌, ◌++◌, Option, none, some, Bytes, codes, same,
  length, to_lower, contains, has_prefix, take, trim_space, ltb, if◌then◌else◌,
}
use obsidian.GraphQl.{
  AnalysisResult, Config, Decoder, batch_too_large, batching_disabled, calculate_complexity,
  calculate_depth, count_aliases, count_fields, empty_result, failed, field_too_long,
  has_long_field, introspection_blocked, mentions_introspection, query_too_complex, query_too_deep,
  too_many_aliases,
}

-- `analyzeQuery` from the depth on.
unfoldable pub analyze_limits : Config → Bytes → AnalysisResult → AnalysisResult
analyze_limits cfg query result =
    let deep = record result { depth = calculate_depth query } in
    let aliased = record deep { alias_count = count_aliases query } in
    let weighed = record aliased { complexity = calculate_complexity cfg query } in
    if ltb cfg.max_depth deep.depth
    then failed deep query_too_deep
    else if ltb cfg.max_aliases aliased.alias_count
    then failed aliased too_many_aliases
    else if has_long_field cfg query
    then failed aliased field_too_long
    else if ltb cfg.max_complexity weighed.complexity
    then failed weighed query_too_complex
    else record weighed { field_count = count_fields query }

unfoldable pub analyze_query : Config → Bytes → AnalysisResult → AnalysisResult
analyze_query cfg query result =
    if same query []
    then result
    else if mentions_introspection query
    then (let found = record result { has_introspection = true } in
        if cfg.block_introspection
        then failed found introspection_blocked
        else analyze_limits cfg query (record found {
          warnings = result.warnings ++ codes "introspection query detected" ∷ [];
        }))
    else analyze_limits cfg query result

-- The totals of a batch with those of one more query.
abbrev pub added : AnalysisResult → AnalysisResult → AnalysisResult
added result one = record result {
  complexity = result.complexity + one.complexity;
  depth = if ltb result.depth one.depth then one.depth else result.depth;
  alias_count = result.alias_count + one.alias_count;
  field_count = result.field_count + one.field_count;
}

-- The loop over a batch: an invalid query ends it with its own result.
unfoldable pub analyze_all : Config → AnalysisResult → List Bytes → AnalysisResult
analyze_all cfg result [] =
    if ltb cfg.max_complexity result.complexity then failed result query_too_complex else result
analyze_all cfg result (query ∷ queries) =
    let one = analyze_query cfg query empty_result in
    let rest = analyze_all cfg (added result one) queries in if one.is_valid then rest else one

unfoldable pub analyze_batch : Config → List Bytes → AnalysisResult
analyze_batch cfg batch =
    let result = record empty_result { is_batched = true; batch_size = length batch } in
    if not cfg.allow_batching
    then failed result batching_disabled
    else if ltb cfg.max_batch_size (length batch)
    then failed result batch_too_large
    else analyze_all cfg result batch

-- `none` is the error ErrMalformedQuery.
unfoldable pub analyze_body : Decoder → Config → Bytes → Option AnalysisResult
analyze_body decode cfg body =
    if not cfg.enabled then some empty_result else elim (decode.one body) [
      | some query ↦ some (analyze_query cfg query empty_result)
      | none ↦ elim (decode.many body) [ none ↦ none | some batch ↦ some (analyze_batch cfg batch) ]
    ]

unfoldable pub is_graphql_request : Bytes → Bytes → Bytes → Bool
is_graphql_request content_type path body =
    let trimmed = trim_space body in
    contains content_type (codes "application/graphql")
    || contains (to_lower path) (codes "/graphql")
    || (has_prefix trimmed (codes "{") && contains (take 100 trimmed) (codes "\"query\""))
