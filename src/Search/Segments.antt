-- ===== src/Search/Segments.antt =====
-- apps/web/src/lib/search/segments.ts: the flat search. A query is built from the filters and
-- their numbering; the results of the queries, which are sent side by side, are combined in
-- `do` blocks, where a rejected query rejects the search.
pub mod Bound
pub mod Sent
pub mod Steady
use mathlib.Core.Option
use podlog.Base.{
  ℕ, ◌+◌, ◌-◌, ◌*◌, Bool, true, false, Option, none, some, List, [], ◌∷◌, ◌++◌, map, Text, codes,
  trim, is_empty, join, if◌then◌else◌, ◌>>=◌,
}
use podlog.Number.{Number}
use podlog.Search.Sql.{Sql, text, place, Param, Query}
use podlog.Search.Filters.{
  FilterOptions, build_like_pattern, build_feed_filter, build_speaker_turn_filters,
  build_segment_filters, build_metadata_filters, append_filter_sql,
}
use podlog.Search.Query.{
  ParsedSearchQuery, parse_search_query, Mode, transcript_hybrid, metadata_only,
}
use podlog.Search.Hybrid.{Row, HybridSearchResultItem, MergedEntry, merge_hybrid_search_results}
use podlog.Search.Pool.{
  Pool, MetadataRow, SearchPage, build_coverage, to_coverage, build_metadata_snippet,
}

abbrev pub fetch_limit : ℕ
fetch_limit = 100

abbrev pub status_done : Sql
status_done = text "e.status = 'done'" ∷ []

module _ (opts : FilterOptions) (feed_ids : Option (List Text)) (manual : Bool) where
  -- `whereClauses.join("\n AND ")`
  unfoldable pub metadata_where : Sql
  metadata_where =
      let feed = build_feed_filter feed_ids manual 1 in
      let meta = build_metadata_filters opts feed.next_idx in
      join (text " AND " ∷ []) (status_done ∷ feed.clause ∷ meta.clauses)

  unfoldable pub metadata_params : List Param
  metadata_params =
      let feed = build_feed_filter feed_ids manual 1 in
      feed.params ++ (build_metadata_filters opts feed.next_idx).params

  unfoldable pub metadata_next_idx : ℕ
  metadata_next_idx =
      (build_metadata_filters opts (build_feed_filter feed_ids manual 1).next_idx).next_idx

  unfoldable pub metadata_rows_query : (page page_size : ℕ) → Query
  metadata_rows_query page page_size = record {
    sql =
        text
          "SELECT ROW_NUMBER() OVER (ORDER BY COALESCE(e.published_at, e.created_at) DESC, e.id DESC)::int AS id, 0::double precision AS start_time, 0::double precision AS end_time, NULL::text AS speaker_label, NULL::text AS speaker_display, e.id AS episode_id, e.title AS episode_title, e.description AS episode_description, e.audio_url, e.audio_local_path, e.episode_url, e.has_diarization, e.diarization_error, COALESCE(f.title, 'Manual episode') AS feed_title, COALESCE(f.mode, 'full') AS feed_mode, f.id AS feed_id FROM episodes e LEFT JOIN feeds f ON e.feed_id = f.id WHERE "
        ∷ (metadata_where
            ++ (text " ORDER BY COALESCE(e.published_at, e.created_at) DESC, e.id DESC LIMIT "
                ∷ place metadata_next_idx
                ∷ text " OFFSET "
                ∷ place (metadata_next_idx + 1)
                ∷ []));
    params = metadata_params ++ (Param.num page_size ∷ Param.num ((page - 1) * page_size) ∷ []);
  }

  unfoldable pub metadata_count_query : Query
  metadata_count_query = record {
    sql =
        text
          "SELECT COUNT(*)::int AS total FROM episodes e LEFT JOIN feeds f ON e.feed_id = f.id WHERE "
        ∷ metadata_where;
    params = metadata_params;
  }

  -- The full-text condition, with the filters on turns, from `$1` on.
  unfoldable pub turn_where : Sql
  turn_where =
      let feed = build_feed_filter feed_ids manual 2 in
      let filters = build_speaker_turn_filters opts feed.next_idx in
      text "websearch_to_tsquery('english', "
      ∷ place 1
      ∷ text ") AS query WHERE t.fts @@ query AND e.status = 'done' AND "
      ∷ (feed.clause ++ (text " " ∷ append_filter_sql filters.clauses))

  unfoldable pub turn_params : (base_query : Text) → List Param
  turn_params base_query =
      let feed = build_feed_filter feed_ids manual 2 in
      Param.text (some base_query)
      ∷ (feed.params ++ (build_speaker_turn_filters opts feed.next_idx).params)

  unfoldable pub turn_next_idx : ℕ
  turn_next_idx =
      (build_speaker_turn_filters opts (build_feed_filter feed_ids manual 2).next_idx).next_idx

  unfoldable pub fts_query : (base_query : Text) → Query
  fts_query base_query = record {
    sql =
        text
          "SELECT t.min_id AS id, t.start_time, t.end_time, t.speaker_label, COALESCE(sn.display_name, t.speaker_label) AS speaker_display, ts_headline('english', t.full_text, query, 'MaxFragments=0, HighlightAll=true') AS snippet, ts_rank(t.fts, query) AS rank, e.id AS episode_id, e.title AS episode_title, e.audio_url, e.audio_local_path, e.episode_url, e.has_diarization, e.diarization_error, COALESCE(f.title, 'Manual episode') AS feed_title, COALESCE(f.mode, 'full') AS feed_mode, f.id AS feed_id FROM speaker_turns t JOIN episodes e ON t.episode_id = e.id LEFT JOIN feeds f ON e.feed_id = f.id LEFT JOIN speaker_names sn ON sn.episode_id = e.id AND sn.speaker_label = t.speaker_label, "
        ∷ (turn_where ++ (text " ORDER BY rank DESC LIMIT " ∷ place turn_next_idx ∷ []));
    params = turn_params base_query ++ Param.num fetch_limit ∷ [];
  }

  unfoldable pub count_query : (base_query : Text) → Query
  count_query base_query = record {
    sql =
        text
          "SELECT COUNT(*) FROM speaker_turns t JOIN episodes e ON t.episode_id = e.id LEFT JOIN feeds f ON e.feed_id = f.id LEFT JOIN speaker_names sn ON sn.episode_id = e.id AND sn.speaker_label = t.speaker_label, "
        ∷ turn_where;
    params = turn_params base_query;
  }

  -- The embedding is the list of its components as they are printed.
  unfoldable pub vec_query : (embedding : List Text) → Query
  vec_query embedding =
      let feed = build_feed_filter feed_ids manual 2 in
      let filters = build_segment_filters opts feed.next_idx in
      let vector = codes "[" ++ (join (codes ",") embedding ++ codes "]") in
      record {
        sql =
            text
              "SELECT s.id, s.start_time, s.end_time, s.speaker_label, COALESCE(sn.display_name, s.speaker_label) AS speaker_display, s.text, 1 - (s.embedding <=> "
            ∷ place 1
            ∷ text
                "::vector) AS similarity, e.id AS episode_id, e.title AS episode_title, e.audio_url, e.audio_local_path, e.episode_url, e.has_diarization, e.diarization_error, COALESCE(f.title, 'Manual episode') AS feed_title, COALESCE(f.mode, 'full') AS feed_mode, f.id AS feed_id FROM segments s JOIN episodes e ON s.episode_id = e.id LEFT JOIN feeds f ON e.feed_id = f.id LEFT JOIN speaker_names sn ON sn.episode_id = e.id AND sn.speaker_label = s.speaker_label WHERE s.embedding IS NOT NULL AND e.status = 'done' AND "
            ∷ (feed.clause
                ++ (text " "
                    ∷ (append_filter_sql filters.clauses
                        ++ (text " ORDER BY s.embedding <=> "
                            ∷ place 1
                            ∷ text "::vector LIMIT "
                            ∷ place filters.next_idx
                            ∷ []))));
        params =
            (Param.text (some vector) ∷ (feed.params ++ filters.params))
            ++ Param.num fetch_limit ∷ [];
      }

abbrev pub feed_or_manual : Option Text → Text
feed_or_manual none = codes "__manual__"
feed_or_manual (some id) = id

unfoldable pub metadata_result :
    (N : Number) → ParsedSearchQuery → MetadataRow → HybridSearchResultItem N
metadata_result N parsed row = record {
  id = N.nat row.id;
  start_time = N.nat 0;
  end_time = N.nat 0;
  speaker_label = none;
  speaker_display = none;
  snippet = build_metadata_snippet row parsed;
  rank = N.nat 1;
  episode_id = row.episode_id;
  episode_title = row.episode_title;
  audio_url = row.audio_url;
  audio_local_path = row.audio_local_path;
  episode_url = row.episode_url;
  has_diarization = row.has_diarization;
  diarization_error = row.diarization_error;
  feed_title = some row.feed_title;
  feed_mode = row.feed_mode;
  feed_id = feed_or_manual row.feed_id;
}

unfoldable pub filter_options : Option Text → ParsedSearchQuery → FilterOptions
filter_options speaker_label parsed = record {
  speaker_label = speaker_label;
  speaker_like = build_like_pattern parsed.speaker_filter;
  title_filter = parsed.title_filter;
  description_filter = parsed.description_filter;
}

-- `parsed.freeText || query.trim()`
abbrev pub base_query_of : ParsedSearchQuery → Text → Text
base_query_of parsed query = if is_empty parsed.free_text then trim query else parsed.free_text

module _ (N : Number) (pool : Pool N) (feed_ids : Option (List Text)) (manual : Bool) where
  -- `Promise.resolve(null)` where counting is skipped.
  abbrev pub counted : Bool → Query → Option (Option ℕ)
  counted skip_count query = if skip_count then some none else Option.map some (pool.count query)

  module _ (page page_size : ℕ) (skip_count : Bool) where
    unfoldable pub search_segments_metadata :
        FilterOptions → ParsedSearchQuery → Option (SearchPage N)
    search_segments_metadata opts parsed = do
      rows ← pool.metadata_rows (metadata_rows_query opts feed_ids manual page page_size)
      total ← counted skip_count (metadata_count_query opts feed_ids manual)
      coverage ← build_coverage pool skip_count
      some (record {
        results = map (metadata_result N parsed) rows;
        total = total;
        page = page;
        page_size = page_size;
        coverage = to_coverage coverage;
      })

    -- A null embedding leaves the vector rows empty.
    unfoldable pub vec_rows : FilterOptions → Option (List Text) → Option (List (Row N))
    vec_rows opts none = some []
    vec_rows opts (some embedding) = pool.rows (vec_query opts feed_ids manual embedding)

    unfoldable pub search_segments_hybrid :
        (Text → Option (List Text)) → (base_query : Text) → FilterOptions → Option (SearchPage N)
    search_segments_hybrid get_query_embedding base_query opts = do
      fts ← pool.rows (fts_query opts feed_ids manual base_query)
      vec ← vec_rows opts (get_query_embedding base_query)
      fts_total ← counted skip_count (count_query opts feed_ids manual base_query)
      coverage ← build_coverage pool skip_count
      let merged = merge_hybrid_search_results N fts vec page page_size fts_total 60
      some (record {
        results = map (λ e. e.item) merged.results;
        total = merged.total;
        page = page;
        page_size = page_size;
        coverage = to_coverage coverage;
      })

    abbrev pub search_in_mode :
        Mode
        → (Text → Option (List Text))
        → (query : Text) → FilterOptions
        → ParsedSearchQuery
        → Option (SearchPage N)
    search_in_mode metadata_only embed query opts parsed = search_segments_metadata opts parsed
    search_in_mode transcript_hybrid embed query opts parsed =
        search_segments_hybrid embed (base_query_of parsed query) opts

    unfoldable pub search_segments :
        (get_query_embedding : Text → Option (List Text)) (query : Text)
        (speaker_label : Option Text)
        → Option (SearchPage N)
    search_segments get_query_embedding query speaker_label =
        let parsed = parse_search_query query in
        search_in_mode parsed.mode get_query_embedding query (filter_options speaker_label parsed)
          parsed
