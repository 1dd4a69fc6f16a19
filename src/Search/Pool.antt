-- ===== src/Search/Pool.antt =====
-- What the searches ask of the database and of the embedding service, and
-- apps/web/src/lib/search/coverage.ts and filterOpts.ts. Each field of `Pool` is `pool.query` at
-- the rows of one kind of statement; `none` is a rejected promise.
use mathlib.Core.Option
use podlog.Base.{
  ℕ, Bool, Option, none, some, List, [], ◌∷◌, ◌++◌, Text, codes, trim, ltb, length, slice,
  if◌then◌else◌, ◌&&◌,
}
use podlog.Number.{Number}
use podlog.Search.Sql.{text, Query}
use podlog.Search.Query.{ParsedSearchQuery, truthy}
use podlog.Search.Hybrid.{Row, HybridSearchResultItem}

-- A row of the metadata search.
pub record MetadataRow : Type 0 where
  pub id : ℕ
  pub episode_id : Text
  pub episode_title : Option Text
  pub episode_description : Option Text
  pub audio_url : Text
  pub audio_local_path : Option Text
  pub episode_url : Option Text
  pub has_diarization : Bool
  pub diarization_error : Option Text
  pub feed_title : Text
  pub feed_mode : Text
  pub feed_id : Option Text

pub record EpisodeCoverage : Type 0 where
  pub processed : ℕ
  pub total : ℕ

-- A row of the grouped search.
pub record GroupingRow (Num : Type 0) : Type 0 where
  pub feed_id : Option Text
  pub feed_title : Text
  pub feed_mode : Text
  pub episode_id : Text
  pub episode_title : Text
  pub audio_url : Text
  pub audio_local_path : Option Text
  pub episode_url : Option Text
  pub mention_count : ℕ
  pub best_rank : Num

pub record GroupedCounts : Type 0 where
  pub total_episodes : ℕ
  pub total_feeds : ℕ
  pub total_mentions : ℕ
  pub has_manual : Bool

-- A row of the mentions search.
pub record TurnRow (Num : Type 0) : Type 0 where
  pub id : ℕ
  pub start_time : Num
  pub end_time : Num
  pub speaker_label : Option Text
  pub speaker_display : Option Text
  pub full_text : Text
  pub is_match : Bool
  pub snippet : Text
  pub rank : Num

pub record Pool (N : Number) : Type 0 where
  pub metadata_rows : Query → Option (List MetadataRow)
  pub rows : Query → Option (List (Row N))
  pub count : Query → Option ℕ
  pub coverage : Query → Option (List EpisodeCoverage)
  pub grouping_rows : Query → Option (List (GroupingRow N.Num))
  pub grouped_counts : Query → Option GroupedCounts
  pub turn_rows : Query → Option (List (TurnRow N.Num))

abbrev pub coverage_query : Query
coverage_query = record {
  sql =
      text
        "SELECT COUNT(*) FILTER (WHERE status = 'done')::int AS processed, COUNT(*)::int AS total FROM episodes"
      ∷ [];
  params = [];
}

-- `Promise.resolve(null)` where counting is skipped.
unfoldable pub build_coverage :
    {N : Number} → Pool N → Bool → Option (Option (List EpisodeCoverage))
build_coverage pool skip_count =
    if skip_count then some none else Option.map some (pool.coverage coverage_query)

unfoldable pub to_coverage : Option (List EpisodeCoverage) → EpisodeCoverage
to_coverage none = record { processed = 0; total = 0 }
to_coverage (some []) = record { processed = 0; total = 0 }
to_coverage (some (cov ∷ _)) = cov

abbrev text_or : Option Text → Text → Text
text_or none d = d
text_or (some s) d = s

abbrev cut_snippet : Text → Text
cut_snippet trimmed =
    if ltb 240 (length trimmed) then slice 0 240 trimmed ++ codes "..." else trimmed

unfoldable pub build_metadata_snippet : MetadataRow → ParsedSearchQuery → Text
build_metadata_snippet row parsed =
    if truthy parsed.title_filter && truthy row.episode_title
    then codes "Title match: " ++ text_or row.episode_title []
    else if truthy parsed.description_filter && truthy row.episode_description
    then cut_snippet (trim (text_or row.episode_description []))
    else if truthy parsed.speaker_filter
    then codes "Speaker match: " ++ text_or parsed.speaker_filter []
    else text_or row.episode_title (codes "Episode match")

pub record SearchPage (N : Number) : Type 0 where
  pub results : List (HybridSearchResultItem N)
  pub total : Option ℕ
  pub page : ℕ
  pub page_size : ℕ
  pub coverage : EpisodeCoverage
