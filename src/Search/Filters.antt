-- ===== src/Search/Filters.antt =====
-- apps/web/src/lib/search/filters.ts and feedFilter.ts: the conditions of a search, each with the
-- place of its parameter. The source threads `idx` through pushes onto `clauses` and `params`;
-- here each `if` is one `push` on the record of the three.
pub mod Numbering
pub mod Chosen
use Prim.Native.String.{String}
use podlog.Base.{
  ℕ, ◌+◌, Bool, true, false, not, ◌&&◌, ◌||◌, Option, none, some, List, [], ◌∷◌, ◌++◌, Text, codes,
  present, is_empty, join, if◌then◌else◌,
}
use podlog.Search.Sql.{Piece, text, place, Sql, Param}

pub record FilterResult : Type 0 where
  pub clauses : List Sql
  pub params : List Param
  pub next_idx : ℕ

pub record FilterOptions : Type 0 where
  pub speaker_label : Option Text
  pub speaker_like : Option Text
  pub title_filter : Option Text
  pub description_filter : Option Text

-- `%value%`
unfoldable pub build_like_pattern : Option Text → Option Text
build_like_pattern value = elim (present value) [
  | none ↦ none
  | some v ↦ some (codes "%" ++ (v ++ codes "%"))
]

-- `if (value) { clauses.push(clause); params.push(param); idx++; }`
unfoldable pub push : Option Text → (ℕ → Sql) → Param → FilterResult → FilterResult
push value clause param r = elim (present value) [
  | none ↦ r
  | some _ ↦ record {
    clauses = r.clauses ++ clause r.next_idx ∷ [];
    params = r.params ++ param ∷ [];
    next_idx = r.next_idx + 1;
  }
]

abbrev pub no_filters : ℕ → FilterResult
no_filters start = record { clauses = []; params = []; next_idx = start }

abbrev pub label_clause : ℕ → Sql
label_clause idx = text "sn.confirmed_by_user = true AND sn.display_name = " ∷ place idx ∷ []

abbrev pub like_clause : String → ℕ → Sql
like_clause segment_alias idx =
    text "(COALESCE(sn.display_name, "
    ∷ text segment_alias
    ∷ text ".speaker_label) ILIKE "
    ∷ place idx
    ∷ text " OR "
    ∷ text segment_alias
    ∷ text ".speaker_label ILIKE "
    ∷ place idx
    ∷ text ")"
    ∷ []

abbrev pub title_clause : ℕ → Sql
title_clause idx = text "COALESCE(e.title, '') ILIKE " ∷ place idx ∷ []

abbrev pub description_clause : ℕ → Sql
description_clause idx = text "COALESCE(e.description, '') ILIKE " ∷ place idx ∷ []

abbrev pub exists_like_clause : ℕ → Sql
exists_like_clause idx =
    text
      "EXISTS ( SELECT 1 FROM speaker_names sn WHERE sn.episode_id = e.id AND (COALESCE(sn.display_name, sn.speaker_label) ILIKE "
    ∷ place idx
    ∷ text " OR sn.speaker_label ILIKE "
    ∷ place idx
    ∷ text ") )"
    ∷ []

abbrev pub exists_label_clause : ℕ → Sql
exists_label_clause idx =
    text
      "EXISTS ( SELECT 1 FROM speaker_names sn WHERE sn.episode_id = e.id AND sn.confirmed_by_user = true AND sn.display_name = "
    ∷ place idx
    ∷ text " )"
    ∷ []

unfoldable pub build_joined_filters : FilterOptions → ℕ → String → FilterResult
build_joined_filters opts start_idx segment_alias =
    let r1 =
      push opts.speaker_label label_clause (Param.text opts.speaker_label) (no_filters start_idx) in
    let r2 = push opts.speaker_like (like_clause segment_alias) (Param.text opts.speaker_like) r1 in
    let r3 =
      push opts.title_filter title_clause (Param.text (build_like_pattern opts.title_filter)) r2 in
    push opts.description_filter description_clause
      (Param.text (build_like_pattern opts.description_filter)) r3

unfoldable pub build_speaker_turn_filters : FilterOptions → ℕ → FilterResult
unfolding build_joined_filters
build_speaker_turn_filters opts start_idx = build_joined_filters opts start_idx "t"

unfoldable pub build_segment_filters : FilterOptions → ℕ → FilterResult
unfolding build_joined_filters
build_segment_filters opts start_idx = build_joined_filters opts start_idx "s"

unfoldable pub build_metadata_filters : FilterOptions → ℕ → FilterResult
build_metadata_filters opts start_idx =
    let r1 =
      push opts.title_filter title_clause (Param.text (build_like_pattern opts.title_filter))
        (no_filters start_idx) in
    let r2 =
      push opts.description_filter description_clause
        (Param.text (build_like_pattern opts.description_filter)) r1 in
    let r3 = push opts.speaker_like exists_like_clause (Param.text opts.speaker_like) r2 in
    push opts.speaker_label exists_label_clause (Param.text opts.speaker_label) r3

unfoldable pub append_filter_sql : List Sql → Sql
append_filter_sql clauses =
    if is_empty clauses then [] else text "AND " ∷ join (text " AND " ∷ []) clauses

pub record FeedFilter : Type 0 where
  pub clause : Sql
  pub params : List Param
  pub next_idx : ℕ

-- `feedIds && feedIds.length > 0`
abbrev pub has_feed_ids : Option (List Text) → Bool
has_feed_ids none = false
has_feed_ids (some ids) = not (is_empty ids)

abbrev pub ids_of : Option (List Text) → List Text
ids_of none = []
ids_of (some ids) = ids

unfoldable pub build_feed_filter : Option (List Text) → Bool → ℕ → FeedFilter
build_feed_filter feed_ids include_manual_uploads start_param =
    if not (has_feed_ids feed_ids) && not include_manual_uploads
    then record { clause = text "TRUE" ∷ []; params = []; next_idx = start_param }
    else let id_parts : List Sql =
        if has_feed_ids feed_ids
        then (text "f.id = ANY(" ∷ place start_param ∷ text "::uuid[])" ∷ []) ∷ []
        else [] in
      let manual_parts : List Sql =
        if include_manual_uploads then (text "e.feed_id IS NULL" ∷ []) ∷ [] else [] in
      record {
        clause = text "(" ∷ (join (text " OR " ∷ []) (id_parts ++ manual_parts) ++ text ")" ∷ []);
        params = if has_feed_ids feed_ids then Param.uuids (ids_of feed_ids) ∷ [] else [];
        next_idx = if has_feed_ids feed_ids then start_param + 1 else start_param;
      }
