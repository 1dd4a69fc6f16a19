-- ===== src/Search/Mentions.antt =====
-- apps/web/src/lib/search/mentions.ts: the turns of one episode that match, each with up to two
-- turns around it that do not.
pub mod Context
pub mod Bound
use mathlib.Core.Option
use podlog.Base.{
  ℕ, zero, suc, ◌+◌, ◌-◌, Bool, true, false, not, Option, none, some, List, [], ◌∷◌, ◌++◌, map,
  Text, ltb, if◌then◌else◌, ◌>>=◌, length, get_elem?, trim, is_empty, present,
}
use podlog.Number.{Number}
use podlog.Search.Sql.{Sql, text, place, Param, Query}
use podlog.Search.Filters.{FilterResult, no_filters, push, build_like_pattern}
use podlog.Search.Query.{parse_search_query}
use podlog.Search.Pool.{Pool, TurnRow}

pub record ContextSegment (Num : Type 0) : Type 0 where
  pub start_time : Num
  pub end_time : Num
  pub speaker_label : Option Text
  pub speaker_display : Option Text
  pub text : Text

pub record Mention (Num : Type 0) : Type 0 where
  pub id : ℕ
  pub start_time : Num
  pub end_time : Num
  pub speaker_label : Option Text
  pub speaker_display : Option Text
  pub snippet : Text
  pub text : Text
  pub rank : Num
  pub context_before : List (ContextSegment Num)
  pub context_after : List (ContextSegment Num)

pub record EpisodeMentions (Num : Type 0) : Type 0 where
  pub episode_id : Text
  pub mentions : List (Mention Num)

abbrev pub context_size : ℕ
context_size = 2

module _ {Num : Type 0} where
  abbrev pub to_context_segment : TurnRow Num → ContextSegment Num
  to_context_segment row = record {
    start_time = row.start_time;
    end_time = row.end_time;
    speaker_label = row.speaker_label;
    speaker_display = row.speaker_display;
    text = row.full_text;
  }

  -- `all_turns.map((row, i) => row.is_match ? i : -1).filter((i) => i >= 0)`, from index `i` on.
  unfoldable pub match_indices : (i : ℕ) → List (TurnRow Num) → List ℕ
  match_indices i [] = []
  match_indices i (row ∷ rows) =
      if row.is_match then i ∷ match_indices (suc i) rows else match_indices (suc i) rows

  module _ (all_turns : List (TurnRow Num)) where
    -- The loop for `before`; `suc i` stands for the index `i` that is looked at next.
    unfoldable pub walk_back : ℕ → List (ContextSegment Num) → List (ContextSegment Num)
    walk_back zero before = before
    walk_back (suc i) before = elim (ltb (length before) context_size) [
      | false ↦ before
      | true ↦ elim (get_elem? all_turns i) [
        | none ↦ before
        | some row ↦ elim row.is_match [
          | true ↦ before
          | false ↦ walk_back i (to_context_segment row ∷ before)
        ]
      ]
    ]

    -- The loop for `after`, with as many rounds as there are turns.
    unfoldable pub walk_on : (fuel i : ℕ) → List (ContextSegment Num) → List (ContextSegment Num)
    walk_on zero i after = after
    walk_on (suc fuel) i after = elim (ltb (length after) context_size) [
      | false ↦ after
      | true ↦ elim (get_elem? all_turns i) [
        | none ↦ after
        | some row ↦ elim row.is_match [
          | true ↦ after
          | false ↦ walk_on fuel (suc i) (after ++ to_context_segment row ∷ [])
        ]
      ]
    ]

    unfoldable pub mention_at : ℕ → TurnRow Num → Mention Num
    mention_at match_index row = record {
      id = row.id;
      start_time = row.start_time;
      end_time = row.end_time;
      speaker_label = row.speaker_label;
      speaker_display = row.speaker_display;
      snippet = row.snippet;
      text = row.full_text;
      rank = row.rank;
      context_before = walk_back match_index [];
      context_after = walk_on (length all_turns) (suc match_index) [];
    }

    -- `matchIndices.map`; an index outside the turns, where the source would fail, gives nothing.
    unfoldable pub mentions_at : List ℕ → List (Mention Num)
    mentions_at [] = []
    mentions_at (i ∷ indices) = elim (get_elem? all_turns i) [
      | none ↦ mentions_at indices
      | some row ↦ mention_at i row ∷ mentions_at indices
    ]

  unfoldable pub mentions_of : List (TurnRow Num) → List (Mention Num)
  mentions_of all_turns = mentions_at all_turns (match_indices 0 all_turns)

-- ` AND (… ILIKE $3 …)`, where a speaker is given.
abbrev pub speaker_match_clause : ℕ → Sql
speaker_match_clause idx =
    text " AND (COALESCE(sn.display_name, t.speaker_label) ILIKE "
    ∷ place idx
    ∷ text " OR t.speaker_label ILIKE "
    ∷ place idx
    ∷ text ")"
    ∷ []

unfoldable pub speaker_match : Option Text → Sql
speaker_match speaker_like = elim (present speaker_like) [
  | none ↦ []
  | some _ ↦ speaker_match_clause 3
]

unfoldable pub mentions_query : (base_query episode_id : Text) (speaker_like : Option Text) → Query
mentions_query base_query episode_id speaker_like =
    let matching = speaker_match speaker_like in
    record {
      sql =
          text
            "SELECT t.min_id AS id, t.start_time, t.end_time, t.speaker_label, COALESCE(sn.display_name, t.speaker_label) AS speaker_display, t.full_text, CASE WHEN t.fts @@ query "
          ∷ (matching
              ++ (text " THEN true ELSE false END AS is_match, CASE WHEN t.fts @@ query "
                  ∷ (matching
                      ++ (text
                            " THEN ts_headline('english', t.full_text, query, 'MaxFragments=0, HighlightAll=true') ELSE '' END AS snippet, CASE WHEN t.fts @@ query "
                          ∷ (matching
                              ++ (text
                                    " THEN ts_rank(t.fts, query) ELSE 0 END AS rank FROM speaker_turns t LEFT JOIN speaker_names sn ON sn.episode_id = t.episode_id AND sn.speaker_label = t.speaker_label, websearch_to_tsquery('english', "
                                  ∷ place 1
                                  ∷ text ") AS query WHERE t.episode_id = "
                                  ∷ place 2
                                  ∷ text " ORDER BY t.start_time ASC"
                                  ∷ []))))));
      params =
          Param.text (some base_query)
          ∷ Param.text (some episode_id)
          ∷ elim (present speaker_like) [ none ↦ [] | some _ ↦ Param.text speaker_like ∷ [] ];
    }

unfoldable pub search_mentions :
    (N : Number) → Pool N → (query episode_id : Text) → Option (EpisodeMentions N.Num)
search_mentions N pool query episode_id =
    let parsed = parse_search_query query in
    let base_query = trim parsed.free_text in
    let found =
      Option.map (λ rows. record { episode_id = episode_id; mentions = mentions_of rows })
        (pool.turn_rows
          (mentions_query base_query episode_id (build_like_pattern parsed.speaker_filter))) in
    if is_empty base_query then some (record { episode_id = episode_id; mentions = [] }) else found
