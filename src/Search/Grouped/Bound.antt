-- ===== src/Search/Grouped/Bound.antt =====
-- The statements of the grouped search are bound too.
use podlog.Base.{ℕ, ◌-◌, ◌*◌, ◌≡◌, Bool, Option, List, [], ◌∷◌, arith, Text, length-append}
use podlog.Number.{Number}
use podlog.Search.Sql.{Param, Query, places-append, IsBound, Covers-nil}
use podlog.Search.Filters.{FilterOptions}
use podlog.Search.Query.{ParsedSearchQuery, Mode, transcript_hybrid, metadata_only}
use podlog.Search.Pool.{Pool, coverage_query, build_coverage}
use podlog.Search.Segments.{metadata_where, metadata_params, turn_where, turn_params}
use podlog.Search.Segments.Bound.{
  metadata_next_idx-eq, Covers-metadata_where, turn_next_idx-eq, Covers-turn_where, Covers-to,
  Covers-pair-more,
}
use podlog.Search.Grouped.{
  grouped_metadata_rows_query, grouped_metadata_count_query, grouped_fts_rows_query,
  grouped_fts_count_query, grouped_result, search_grouped_metadata, search_grouped_fts,
  grouped_in_mode, search_grouped,
}

module _ (opts : FilterOptions) (feed_ids : Option (List Text)) (manual : Bool) where
  grouped_metadata_rows_query-IsBound :
      (page_size offset : ℕ)
      → IsBound (grouped_metadata_rows_query opts feed_ids manual page_size offset)
  unfolding grouped_metadata_rows_query
  grouped_metadata_rows_query-IsBound page_size offset =
      let e = metadata_next_idx-eq opts feed_ids manual in
      let ps = metadata_params opts feed_ids manual in
      rw (places-append (metadata_where opts feed_ids manual)) (
        Covers-to (omega (arith, e, length-append ps (Param.num page_size ∷ Param.num offset ∷ [])))
          (Covers-pair-more _ (Covers-metadata_where opts feed_ids manual) (omega (arith, e))))

  grouped_metadata_count_query-IsBound : IsBound (grouped_metadata_count_query opts feed_ids manual)
  unfolding grouped_metadata_count_query
  grouped_metadata_count_query-IsBound =
      rw (← metadata_next_idx-eq opts feed_ids manual) (Covers-metadata_where opts feed_ids manual)

  grouped_fts_rows_query-IsBound :
      (base : Text) (page_size offset : ℕ)
      → IsBound (grouped_fts_rows_query opts feed_ids manual base page_size offset)
  unfolding grouped_fts_rows_query
  grouped_fts_rows_query-IsBound base page_size offset =
      let e = turn_next_idx-eq opts feed_ids manual base in
      let ps = turn_params opts feed_ids manual base in
      rw (places-append (turn_where opts feed_ids manual)) (
        Covers-to (omega (arith, e, length-append ps (Param.num page_size ∷ Param.num offset ∷ [])))
          (Covers-pair-more _ (Covers-turn_where opts feed_ids manual) (omega (arith, e))))

  grouped_fts_count_query-IsBound :
      (base : Text) → IsBound (grouped_fts_count_query opts feed_ids manual base)
  unfolding grouped_fts_count_query
  grouped_fts_count_query-IsBound base =
      rw (← turn_next_idx-eq opts feed_ids manual base) (Covers-turn_where opts feed_ids manual)

-- Two databases that answer every bound statement of the grouped search alike.
pub record GroupedAgree {N : Number} (p p' : Pool N) : Type 0 where
  pub grouping_rows : (q : Query) → IsBound q → p.grouping_rows q ≡ p'.grouping_rows q
  pub grouped_counts : (q : Query) → IsBound q → p.grouped_counts q ≡ p'.grouped_counts q
  pub coverage : (q : Query) → IsBound q → p.coverage q ≡ p'.coverage q

module _ (N : Number) (p p' : Pool N) (a : GroupedAgree p p') (skip : Bool) where
  grouped_result-agree :
      (rows_query count_query : Query)
      → IsBound rows_query
      → IsBound count_query
      → grouped_result N p skip rows_query count_query
        ≡ grouped_result N p' skip rows_query count_query
  unfolding grouped_result build_coverage
  grouped_result-agree rows_query count_query b c = rw (
    a.grouping_rows rows_query b,
    a.grouped_counts count_query c,
    a.coverage coverage_query (Covers-nil 1),
  )

  module _ (feed_ids : Option (List Text)) (manual : Bool) where
    in_mode-agree :
        (page_size offset : ℕ) (mode : Mode) (query : Text) (opts : FilterOptions)
        (parsed : ParsedSearchQuery)
        → grouped_in_mode N p skip feed_ids manual page_size offset mode query opts parsed
          ≡ grouped_in_mode N p' skip feed_ids manual page_size offset mode query opts parsed
    unfolding search_grouped_metadata search_grouped_fts
    in_mode-agree page_size offset metadata_only query opts parsed =
        grouped_result-agree _ _
          (grouped_metadata_rows_query-IsBound opts feed_ids manual page_size offset)
          (grouped_metadata_count_query-IsBound opts feed_ids manual)
    in_mode-agree page_size offset transcript_hybrid query opts parsed =
        grouped_result-agree _ _
          (grouped_fts_rows_query-IsBound opts feed_ids manual _ page_size offset)
          (grouped_fts_count_query-IsBound opts feed_ids manual _)

    -- The grouped search sends bound statements alone: databases that answer those alike give
    -- the same groups and counts, or the same failure.
    pub search_grouped-bound :
        (page page_size : ℕ) (query : Text) (speaker : Option Text)
        → search_grouped N p skip feed_ids manual page page_size query speaker
          ≡ search_grouped N p' skip feed_ids manual page page_size query speaker
    unfolding search_grouped
    search_grouped-bound page page_size query speaker =
        in_mode-agree page_size ((page - 1) * page_size) _ query _ _
