-- ===== src/Search/Segments/Sent.antt =====
-- What the flat search sends to the database.
use podlog.Base.{ℕ, ◌≡◌, refl, Bool, Option, none, some, List, Text}
use podlog.Number.{Number}
use podlog.Search.Sql.{Query, IsBound, Covers-nil}
use podlog.Search.Filters.{FilterOptions}
use podlog.Search.Query.{ParsedSearchQuery, Mode, transcript_hybrid, metadata_only}
use podlog.Search.Pool.{Pool, coverage_query, build_coverage}
use podlog.Search.Segments.{
  counted, vec_rows, search_segments_metadata, search_segments_hybrid, search_segments,
  metadata_rows_query, metadata_count_query, fts_query, count_query, vec_query, filter_options,
  search_in_mode,
}
use podlog.Search.Segments.Bound.{
  metadata_rows_query-IsBound, metadata_count_query-IsBound, fts_query-IsBound, count_query-IsBound,
  vec_query-IsBound,
}

-- Two databases that answer every bound statement alike.
pub record Agree {N : Number} (p p' : Pool N) : Type 0 where
  pub metadata_rows : (q : Query) → IsBound q → p.metadata_rows q ≡ p'.metadata_rows q
  pub rows : (q : Query) → IsBound q → p.rows q ≡ p'.rows q
  pub count : (q : Query) → IsBound q → p.count q ≡ p'.count q
  pub coverage : (q : Query) → IsBound q → p.coverage q ≡ p'.coverage q

module _ (N : Number) (p p' : Pool N) (a : Agree p p') (feed_ids : Option (List Text))
    (manual : Bool) where
  build_coverage-agree : (skip : Bool) → build_coverage p skip ≡ build_coverage p' skip
  unfolding build_coverage
  build_coverage-agree skip = rw (a.coverage coverage_query (Covers-nil 1))

  counted-agree :
      (skip : Bool) (q : Query)
      → IsBound q
      → counted N p feed_ids manual skip q ≡ counted N p' feed_ids manual skip q
  counted-agree skip q b = rw (a.count q b)

  module _ (page page_size : ℕ) (skip : Bool) where
    metadata-agree :
        (opts : FilterOptions) (parsed : ParsedSearchQuery)
        → search_segments_metadata N p feed_ids manual page page_size skip opts parsed
          ≡ search_segments_metadata N p' feed_ids manual page page_size skip opts parsed
    unfolding search_segments_metadata
    metadata-agree opts parsed = rw (
      a.metadata_rows (metadata_rows_query opts feed_ids manual page page_size)
          (metadata_rows_query-IsBound opts feed_ids manual page page_size),
      counted-agree skip (metadata_count_query opts feed_ids manual)
          (metadata_count_query-IsBound opts feed_ids manual),
      build_coverage-agree skip,
    )

    vec_rows-agree :
        (opts : FilterOptions) (embedding : Option (List Text))
        → vec_rows N p feed_ids manual page page_size skip opts embedding
          ≡ vec_rows N p' feed_ids manual page page_size skip opts embedding
    unfolding vec_rows
    vec_rows-agree opts none = refl
    vec_rows-agree opts (some e) =
        a.rows (vec_query opts feed_ids manual e) (vec_query-IsBound opts feed_ids manual e)

    hybrid-agree :
        (embed : Text → Option (List Text)) (base : Text) (opts : FilterOptions)
        → search_segments_hybrid N p feed_ids manual page page_size skip embed base opts
          ≡ search_segments_hybrid N p' feed_ids manual page page_size skip embed base opts
    unfolding search_segments_hybrid
    hybrid-agree embed base opts = rw (
      a.rows (fts_query opts feed_ids manual base) (fts_query-IsBound opts feed_ids manual base),
      vec_rows-agree opts (embed base),
      counted-agree skip (count_query opts feed_ids manual base)
          (count_query-IsBound opts feed_ids manual base),
      build_coverage-agree skip,
    )

    mode-agree :
        (mode : Mode) (embed : Text → Option (List Text)) (query : Text) (opts : FilterOptions)
        (parsed : ParsedSearchQuery)
        → search_in_mode N p feed_ids manual page page_size skip mode embed query opts parsed
          ≡ search_in_mode N p' feed_ids manual page page_size skip mode embed query opts parsed
    mode-agree metadata_only embed query opts parsed = metadata-agree opts parsed
    mode-agree transcript_hybrid embed query opts parsed = hybrid-agree embed _ opts

    -- The flat search sends bound statements alone: databases that answer those alike, whatever
    -- they do with a statement whose places and parameters do not match, give the same page or
    -- the same failure, in both modes and with any embedding service.
    pub search_segments-bound :
        (embed : Text → Option (List Text)) (query : Text) (speaker : Option Text)
        → search_segments N p feed_ids manual page page_size skip embed query speaker
          ≡ search_segments N p' feed_ids manual page page_size skip embed query speaker
    unfolding search_segments filter_options
    search_segments-bound embed query speaker = mode-agree _ embed query _ _
