-- ===== src/Search/Segments/Steady.antt =====
-- The totals of the flat search, over a database that answers alike.
use mathlib.Core.Option
use podlog.Base.{
  ℕ, ◌≡◌, refl, sym, ap, ◌∙◌, Bool, true, false, Option, none, some, List, map, Text, ◌>>=◌,
}
use podlog.Number.{Number}
use podlog.Search.Filters.{FilterOptions}
use podlog.Search.Query.{
  ParsedSearchQuery, parse_search_query, Mode, transcript_hybrid, metadata_only,
}
use podlog.Search.Hybrid.{Row, merge_hybrid_search_results}
use podlog.Search.Pool.{
  Pool, MetadataRow, EpisodeCoverage, SearchPage, build_coverage, to_coverage, coverage_query,
}
use podlog.Search.Segments.{
  metadata_rows_query, metadata_count_query, count_query, fts_query, base_query_of, metadata_result,
  search_segments_metadata, vec_rows, search_segments_hybrid, search_in_mode, filter_options,
  search_segments,
}

module _ {N : Number} where
  -- The page without its counts.
  abbrev pub uncounted : SearchPage N → SearchPage N
  uncounted a = record a { total = none; coverage = record { processed = 0; total = 0 } }

  abbrev total_of : Option (SearchPage N) → Option ℕ
  total_of none = none
  total_of (some a) = a.total

  abbrev metadata_page :
      ParsedSearchQuery
      → (page page_size : ℕ) → List MetadataRow
      → Option ℕ
      → Option (List EpisodeCoverage)
      → SearchPage N
  metadata_page parsed page page_size rows total coverage = record {
    results = map (metadata_result N parsed) rows;
    total = total;
    page = page;
    page_size = page_size;
    coverage = to_coverage coverage;
  }

  abbrev hybrid_page :
      (page page_size : ℕ)
      → (fts vec : List (Row N)) → Option ℕ
      → Option (List EpisodeCoverage)
      → SearchPage N
  hybrid_page page page_size fts vec total coverage =
      let merged = merge_hybrid_search_results N fts vec page page_size total 60 in
      record {
        results = map (λ e. e.item) merged.results;
        total = merged.total;
        page = page;
        page_size = page_size;
        coverage = to_coverage coverage;
      }

  -- The parts of a page, one after the other.
  abbrev in_parts :
      {Rows : Type 0}
      → (Rows → Option ℕ → Option (List EpisodeCoverage) → SearchPage N)
      → Option Rows
      → Option (Option ℕ)
      → Option (Option (List EpisodeCoverage))
      → Option (SearchPage N)
  in_parts build rows total coverage =
      rows >>= λ r. total >>= λ n. coverage >>= λ c. some (build r n c)

  steady_parts :
      {Rows : Type 0}
      (build build' : Rows → Option ℕ → Option (List EpisodeCoverage) → SearchPage N)
      (rows rows' : Option Rows) (n : Option ℕ) (c : Option (List EpisodeCoverage))
      (a b : SearchPage N)
      → ((r r' : Rows) (k : ℕ) (d : List EpisodeCoverage)
          → rows ≡ some r
          → rows' ≡ some r'
          → (build r (some k) (some d)).total ≡ (build' r' (some k) (some d)).total)
      → ((r : Rows) (k : ℕ) (d : List EpisodeCoverage)
          → build' r none none ≡ uncounted (build' r (some k) (some d)))
      → in_parts build rows (Option.map some n) (Option.map some c) ≡ some a
      → in_parts build' rows' (Option.map some n) (Option.map some c) ≡ some b
      → (a.total ≡ b.total) × (in_parts build' rows' (some none) (some none) ≡ some (uncounted b))
  steady_parts build build' none rows' n c a b same bare p q = cc
  steady_parts build build' (some r) none n c a b same bare p q = cc
  steady_parts build build' (some r) (some r') none c a b same bare p q = cc
  steady_parts build build' (some r) (some r') (some k) none a b same bare p q = cc
  steady_parts build build' (some r) (some r') (some k) (some d) a b same bare p q = (
    sym (ap total_of p) ∙ (same r r' k d refl refl ∙ ap total_of q),
    ap some (bare r' k d) ∙ ap (Option.map uncounted) q,
  )

module _ (N : Number) (pool : Pool N) (feed_ids : Option (List Text)) (manual : Bool)
    (page page' page_size : ℕ) where
  metadata-steady :
      (opts : FilterOptions) (parsed : ParsedSearchQuery) (a b : SearchPage N)
      → search_segments_metadata N pool feed_ids manual page page_size false opts parsed ≡ some a
      → search_segments_metadata N pool feed_ids manual page' page_size false opts parsed ≡ some b
      → (a.total ≡ b.total)
        × (search_segments_metadata N pool feed_ids manual page' page_size true opts parsed
            ≡ some (uncounted b))
  unfolding search_segments_metadata build_coverage to_coverage
  metadata-steady opts parsed a b p q =
      steady_parts (metadata_page parsed page page_size) (metadata_page parsed page' page_size)
        (pool.metadata_rows (metadata_rows_query opts feed_ids manual page page_size))
        (pool.metadata_rows (metadata_rows_query opts feed_ids manual page' page_size))
        (pool.count (metadata_count_query opts feed_ids manual)) (pool.coverage coverage_query) a b
        (λ r r' k d h h'. refl) (λ r k d. refl) p q

  hybrid_parts :
      (fts vec : Option (List (Row N))) (n : Option ℕ) (c : Option (List EpisodeCoverage))
      (a b : SearchPage N)
      → (fts >>= λ f. vec >>= λ v. Option.map some n >>= λ m.
          Option.map some c >>= λ d. some (hybrid_page page page_size f v m d))
        ≡ some a
      → (fts >>= λ f. vec >>= λ v. Option.map some n >>= λ m.
          Option.map some c >>= λ d. some (hybrid_page page' page_size f v m d))
        ≡ some b
      → (a.total ≡ b.total)
        × ((fts >>= λ f. vec >>= λ v.
              some none >>= λ m. some none >>= λ d. some (hybrid_page page' page_size f v m d))
            ≡ some (uncounted b))
  unfolding merge_hybrid_search_results to_coverage
  hybrid_parts none vec n c a b p q = cc
  hybrid_parts (some f) none n c a b p q = cc
  hybrid_parts (some f) (some v) n c a b p q =
      steady_parts (λ (r : Bool). hybrid_page page page_size f v)
        (λ (r : Bool). hybrid_page page' page_size f v) (some true) (some true) n c a b
        (λ r r' k d h h'. refl) (λ r k d. refl) p q

  hybrid-steady :
      (embed : Text → Option (List Text)) (base_query : Text) (opts : FilterOptions)
      (a b : SearchPage N)
      → search_segments_hybrid N pool feed_ids manual page page_size false embed base_query opts
        ≡ some a
      → search_segments_hybrid N pool feed_ids manual page' page_size false embed base_query opts
        ≡ some b
      → (a.total ≡ b.total)
        × (search_segments_hybrid N pool feed_ids manual page' page_size true embed base_query opts
            ≡ some (uncounted b))
  unfolding search_segments_hybrid build_coverage vec_rows
  hybrid-steady embed base_query opts a b p q =
      hybrid_parts (pool.rows (fts_query opts feed_ids manual base_query))
        (vec_rows N pool feed_ids manual page page_size false opts (embed base_query))
        (pool.count (count_query opts feed_ids manual base_query)) (pool.coverage coverage_query) a
        b p q

  in_mode-steady :
      (mode : Mode) (embed : Text → Option (List Text)) (query : Text) (opts : FilterOptions)
      (parsed : ParsedSearchQuery) (a b : SearchPage N)
      → search_in_mode N pool feed_ids manual page page_size false mode embed query opts parsed
        ≡ some a
      → search_in_mode N pool feed_ids manual page' page_size false mode embed query opts parsed
        ≡ some b
      → (a.total ≡ b.total)
        × (search_in_mode N pool feed_ids manual page' page_size true mode embed query opts parsed
            ≡ some (uncounted b))
  in_mode-steady metadata_only embed query opts parsed a b p q = metadata-steady opts parsed a b p q
  in_mode-steady transcript_hybrid embed query opts parsed a b p q =
      hybrid-steady embed (base_query_of parsed query) opts a b p q

  -- Over one database and one embedding service, each of which answers a statement or a text always
  -- alike: two pages of a search that are counted have the same total, in either mode; and a search
  -- that skips the count gives the page that the counted one gives, without the total and with an
  -- empty coverage.
  pub search_segments-steady :
      (embed : Text → Option (List Text)) (query : Text) (speaker_label : Option Text)
      (a b : SearchPage N)
      → search_segments N pool feed_ids manual page page_size false embed query speaker_label
        ≡ some a
      → search_segments N pool feed_ids manual page' page_size false embed query speaker_label
        ≡ some b
      → (a.total ≡ b.total)
        × (search_segments N pool feed_ids manual page' page_size true embed query speaker_label
            ≡ some (uncounted b))
  unfolding search_segments
  search_segments-steady embed query speaker_label a b p q =
      let parsed = parse_search_query query in
      in_mode-steady parsed.mode embed query (filter_options speaker_label parsed) parsed a b p q
