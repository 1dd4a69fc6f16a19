-- ===== src/Search/Grouped.antt =====
-- apps/web/src/lib/search/grouped.ts: the search whose results are gathered by feed. Its
-- conditions are those of the flat search, with a page of rows.
pub mod Bound
use mathlib.Core.Option
use podlog.Base.{
  ℕ, ◌+◌, ◌-◌, ◌*◌, Bool, true, false, Option, none, some, List, [], ◌∷◌, ◌++◌, Text, if◌then◌else◌,
  ◌>>=◌,
}
use podlog.Number.{Number}
use podlog.Search.Sql.{Sql, text, place, Param, Query}
use podlog.Search.Filters.{FilterOptions}
use podlog.Search.Query.{
  ParsedSearchQuery, parse_search_query, Mode, transcript_hybrid, metadata_only,
}
use podlog.Search.Pool.{Pool, GroupedCounts, EpisodeCoverage, build_coverage, to_coverage}
use podlog.Search.Segments.{
  metadata_where, metadata_params, metadata_next_idx, turn_where, turn_params, turn_next_idx,
  filter_options, base_query_of,
}
use podlog.Search.Grouping.{FeedGroup, group_rows_by_feed}

-- `none` stands for -1.
pub record GroupedSearchResult (Num : Type 0) : Type 0 where
  pub feeds : List (FeedGroup Num)
  pub total_feeds : Option ℕ
  pub total_episodes : Option ℕ
  pub total_mentions : Option ℕ
  pub coverage : EpisodeCoverage

-- `(counts?.total_feeds ?? -1) + (counts?.has_manual ? 1 : 0)`
unfoldable pub total_feeds_of : Option GroupedCounts → Option ℕ
total_feeds_of none = none
total_feeds_of (some c) = some (c.total_feeds + (if c.has_manual then 1 else 0))

module _ (opts : FilterOptions) (feed_ids : Option (List Text)) (manual : Bool) where
  unfoldable pub grouped_metadata_rows_query : (page_size offset : ℕ) → Query
  grouped_metadata_rows_query page_size offset = record {
    sql =
        text
          "SELECT f.id AS feed_id, COALESCE(f.title, 'Manual episode') AS feed_title, COALESCE(f.mode, 'full') AS feed_mode, e.id AS episode_id, e.title AS episode_title, e.audio_url, e.audio_local_path, e.episode_url, 1::int AS mention_count, 1::double precision AS best_rank FROM episodes e LEFT JOIN feeds f ON e.feed_id = f.id WHERE "
        ∷ (metadata_where opts feed_ids manual
            ++ (text " ORDER BY COALESCE(e.published_at, e.created_at) DESC, e.id DESC LIMIT "
                ∷ place (metadata_next_idx opts feed_ids manual)
                ∷ text " OFFSET "
                ∷ place (metadata_next_idx opts feed_ids manual + 1)
                ∷ []));
    params = metadata_params opts feed_ids manual ++ (Param.num page_size ∷ Param.num offset ∷ []);
  }

  unfoldable pub grouped_metadata_count_query : Query
  grouped_metadata_count_query = record {
    sql =
        text
          "SELECT COUNT(*)::int AS total_episodes, COUNT(DISTINCT f.id)::int AS total_feeds, COUNT(*)::int AS total_mentions, BOOL_OR(e.feed_id IS NULL)::bool AS has_manual FROM episodes e LEFT JOIN feeds f ON e.feed_id = f.id WHERE "
        ∷ metadata_where opts feed_ids manual;
    params = metadata_params opts feed_ids manual;
  }

  unfoldable pub grouped_fts_rows_query : (base_query : Text) (page_size offset : ℕ) → Query
  grouped_fts_rows_query base_query page_size offset = record {
    sql =
        text
          "SELECT f.id AS feed_id, COALESCE(f.title, 'Manual episode') AS feed_title, COALESCE(f.mode, 'full') AS feed_mode, e.id AS episode_id, e.title AS episode_title, e.audio_url, e.audio_local_path, e.episode_url, COUNT(*)::int AS mention_count, MAX(ts_rank(t.fts, query)) AS best_rank FROM speaker_turns t JOIN episodes e ON t.episode_id = e.id LEFT JOIN feeds f ON e.feed_id = f.id LEFT JOIN speaker_names sn ON sn.episode_id = e.id AND sn.speaker_label = t.speaker_label, "
        ∷ (turn_where opts feed_ids manual
            ++ (text
                  " GROUP BY f.id, f.title, f.mode, e.id, e.title, e.audio_url, e.audio_local_path, e.episode_url ORDER BY best_rank DESC, mention_count DESC LIMIT "
                ∷ place (turn_next_idx opts feed_ids manual)
                ∷ text " OFFSET "
                ∷ place (turn_next_idx opts feed_ids manual + 1)
                ∷ []));
    params =
        turn_params opts feed_ids manual base_query
        ++ (Param.num page_size ∷ Param.num offset ∷ []);
  }

  unfoldable pub grouped_fts_count_query : (base_query : Text) → Query
  grouped_fts_count_query base_query = record {
    sql =
        text
          "SELECT COUNT(DISTINCT e.id)::int AS total_episodes, COUNT(DISTINCT f.id)::int AS total_feeds, COUNT(*)::int AS total_mentions, BOOL_OR(e.feed_id IS NULL)::bool AS has_manual FROM speaker_turns t JOIN episodes e ON t.episode_id = e.id LEFT JOIN feeds f ON e.feed_id = f.id LEFT JOIN speaker_names sn ON sn.episode_id = e.id AND sn.speaker_label = t.speaker_label, "
        ∷ turn_where opts feed_ids manual;
    params = turn_params opts feed_ids manual base_query;
  }

module _ (N : Number) (pool : Pool N) (skip_count : Bool) where
  -- The two searches send a statement for the rows, one for the counts and one for the coverage.
  unfoldable pub grouped_result :
      (rows_query count_query : Query) → Option (GroupedSearchResult N.Num)
  grouped_result rows_query count_query = do
    rows ← pool.grouping_rows rows_query
    counts ← if skip_count then some none else Option.map some (pool.grouped_counts count_query)
    coverage ← build_coverage pool skip_count
    some (record {
      feeds = group_rows_by_feed rows;
      total_feeds = total_feeds_of counts;
      total_episodes = Option.map (λ c. c.total_episodes) counts;
      total_mentions = Option.map (λ c. c.total_mentions) counts;
      coverage = to_coverage coverage;
    })

  module _ (feed_ids : Option (List Text)) (manual : Bool) (page_size offset : ℕ) where
    unfoldable pub search_grouped_metadata : FilterOptions → Option (GroupedSearchResult N.Num)
    search_grouped_metadata opts =
        grouped_result (grouped_metadata_rows_query opts feed_ids manual page_size offset)
          (grouped_metadata_count_query opts feed_ids manual)

    unfoldable pub search_grouped_fts :
        (base_query : Text) → FilterOptions → Option (GroupedSearchResult N.Num)
    search_grouped_fts base_query opts =
        grouped_result (grouped_fts_rows_query opts feed_ids manual base_query page_size offset)
          (grouped_fts_count_query opts feed_ids manual base_query)

    abbrev grouped_in_mode :
        Mode
        → (query : Text) → FilterOptions
        → ParsedSearchQuery
        → Option (GroupedSearchResult N.Num)
    grouped_in_mode metadata_only query opts parsed = search_grouped_metadata opts
    grouped_in_mode transcript_hybrid query opts parsed =
        search_grouped_fts (base_query_of parsed query) opts

  unfoldable pub search_grouped :
      Option (List Text)
      → Bool
      → (page page_size : ℕ) (query : Text) (speaker_label : Option Text)
      → Option (GroupedSearchResult N.Num)
  search_grouped feed_ids manual page page_size query speaker_label =
      let parsed = parse_search_query query in
      grouped_in_mode feed_ids manual page_size ((page - 1) * page_size) parsed.mode query
        (filter_options speaker_label parsed) parsed
