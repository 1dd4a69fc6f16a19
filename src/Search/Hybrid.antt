-- ===== src/Search/Hybrid.antt =====
-- apps/web/src/lib/searchHybrid.ts: the rows of the full-text search and of the vector search,
-- merged by buckets of thirty seconds and ranked by reciprocal rank fusion.
pub mod Buckets
pub mod Scores
pub mod Pages
use Prim.Native.String.{String}
use podlog.Base.{
  ℕ, zero, suc, ◌+◌, ◌-◌, ◌*◌, max, Bool, true, false, not, ◌&&◌, Option, none, some, List, [], ◌∷◌,
  ◌++◌, Text, codes, leb, if◌then◌else◌, is_space, any, slice, take, length,
}
use podlog.Base.Assoc.{lookup, set_key, values}
use podlog.Base.Sort.{sort}
use podlog.Number.{Number}

module _ (N : Number) where
  open N use {Num, nat, parse_float, show, floor_div, recip, add, lt}

  -- A value of type `unknown` in a database row; `nil` is null or undefined.
  pub data Cell : Type 0 where
    nil : Cell
    bool : Bool → Cell
    num : Num → Cell
    str : Text → Cell

  -- `Record<string, unknown>`
  abbrev pub Row : Type 0
  Row = String → Cell

  pub record HybridSearchResultItem : Type 0 where
    pub id : Num
    pub start_time : Num
    pub end_time : Num
    pub speaker_label : Option Text
    pub speaker_display : Option Text
    pub snippet : Text
    pub rank : Num
    pub episode_id : Text
    pub episode_title : Option Text
    pub audio_url : Text
    pub audio_local_path : Option Text
    pub episode_url : Option Text
    pub has_diarization : Bool
    pub diarization_error : Option Text
    pub feed_title : Option Text
    pub feed_mode : Text
    pub feed_id : Text

  pub record MergedEntry : Type 0 where
    pub item : HybridSearchResultItem
    pub fts_rank : Option ℕ
    pub vec_rank : Option ℕ
    pub rrf_score : Num

  -- `String(value)` of a value that is neither null nor undefined.
  abbrev pub to_text : Cell → Text
  to_text nil = []
  to_text (bool true) = codes "true"
  to_text (bool false) = codes "false"
  to_text (num x) = show x
  to_text (str s) = s

  unfoldable pub to_num : Cell → Num
  to_num nil = parse_float (codes "0")
  to_num (num x) = x
  to_num (bool b) = parse_float (to_text (bool b))
  to_num (str s) = parse_float s

  unfoldable pub to_string_or_null : Cell → Option Text
  to_string_or_null nil = none
  to_string_or_null c = some (to_text c)

  unfoldable pub to_string_value : Cell → Text
  to_string_value nil = []
  to_string_value c = to_text c

  -- `Boolean(value)`: of the numbers, 0 and NaN are false, which are those that are not below
  -- and not above 0.
  unfoldable pub to_boolean : Cell → Bool
  to_boolean nil = false
  to_boolean (bool b) = b
  to_boolean (num x) = not (not (lt x (nat 0)) && not (lt (nat 0) x))
  to_boolean (str []) = false
  to_boolean (str (c ∷ s)) = true

  unfoldable pub bucket_key : Text → Num → Text
  bucket_key episode_id start_time = episode_id ++ (codes ":" ++ show (floor_div start_time 30))

  abbrev pub row_key : Row → Text
  row_key row = bucket_key (to_string_value (row "episode_id")) (to_num (row "start_time"))

  -- `.replace(/\s\S*$/, "")`: the last white space and what follows it.
  unfoldable pub cut_last_word : Text → Text
  cut_last_word [] = []
  cut_last_word (c ∷ s) =
      let rest = cut_last_word s in if is_space c && not (any is_space s) then [] else c ∷ rest

  unfoldable pub truncate_snippet : Text → ℕ → Text
  truncate_snippet text max_len =
      if leb (length text) max_len then text else cut_last_word (take max_len text) ++ codes "…"

  -- The fields that both kinds of rows fill alike.
  unfoldable pub row_item : Row → (snippet : Text) → (rank : Num) → HybridSearchResultItem
  row_item row snippet rank = record {
    id = to_num (row "id");
    start_time = to_num (row "start_time");
    end_time = to_num (row "end_time");
    speaker_label = to_string_or_null (row "speaker_label");
    speaker_display = to_string_or_null (row "speaker_display");
    snippet = snippet;
    rank = rank;
    episode_id = to_string_value (row "episode_id");
    episode_title = to_string_or_null (row "episode_title");
    audio_url = to_string_value (row "audio_url");
    audio_local_path = to_string_or_null (row "audio_local_path");
    episode_url = to_string_or_null (row "episode_url");
    has_diarization = to_boolean (row "has_diarization");
    diarization_error = to_string_or_null (row "diarization_error");
    feed_title = to_string_or_null (row "feed_title");
    feed_mode = to_string_value (row "feed_mode");
    feed_id = to_string_value (row "feed_id");
  }

  unfoldable pub fts_entry : (rrf_k i : ℕ) → Row → MergedEntry
  fts_entry rrf_k i row = record {
    item = row_item row (to_string_value (row "snippet")) (to_num (row "rank"));
    fts_rank = some (i + 1);
    vec_rank = none;
    rrf_score = recip (rrf_k + i + 1);
  }

  unfoldable pub vec_entry : (rrf_k i : ℕ) → Row → MergedEntry
  vec_entry rrf_k i row = record {
    item =
        row_item row (truncate_snippet (to_string_value (row "text")) 200)
          (to_num (row "similarity"));
    fts_rank = none;
    vec_rank = some (i + 1);
    rrf_score = recip (rrf_k + i + 1);
  }

  abbrev pub Merged : Type 0
  Merged = List (Text × MergedEntry)

  -- `ftsRows.forEach`, from index `i` on.
  unfoldable pub merge_fts : (rrf_k i : ℕ) → List Row → Merged → Merged
  merge_fts rrf_k i [] merged = merged
  merge_fts rrf_k i (row ∷ rows) merged =
      merge_fts rrf_k (i + 1) rows (set_key (row_key row) (fts_entry rrf_k i row) merged)

  -- The body of `vecRows.forEach`: an entry that is there gains a rank and a score.
  unfoldable pub vec_round : (rrf_k i : ℕ) → Row → Merged → Merged
  vec_round rrf_k i row merged = elim (lookup (row_key row) merged) [
    | none ↦ set_key (row_key row) (vec_entry rrf_k i row) merged
    | some existing ↦
        set_key (row_key row)
          (record existing {
            vec_rank = some (i + 1);
            rrf_score = add existing.rrf_score (recip (rrf_k + i + 1));
          })
          merged
  ]

  unfoldable pub merge_vec : (rrf_k i : ℕ) → List Row → Merged → Merged
  merge_vec rrf_k i [] merged = merged
  merge_vec rrf_k i (row ∷ rows) merged =
      merge_vec rrf_k (i + 1) rows (vec_round rrf_k i row merged)

  -- `b.rrfScore - a.rrfScore < 0`
  abbrev pub outranks : MergedEntry → MergedEntry → Bool
  outranks a b = lt b.rrf_score a.rrf_score

  unfoldable pub merge_rows : (rrf_k : ℕ) → List Row → List Row → Merged
  merge_rows rrf_k fts_rows vec_rows = merge_vec rrf_k 0 vec_rows (merge_fts rrf_k 0 fts_rows [])

  unfoldable pub ranked : (rrf_k : ℕ) → List Row → List Row → List MergedEntry
  ranked rrf_k fts_rows vec_rows = sort outranks (values (merge_rows rrf_k fts_rows vec_rows))

  pub record MergeHybridSearchResultsResult : Type 0 where
    pub results : List MergedEntry
    pub total : Option ℕ

  -- `none` stands for the -1 of a count that was skipped. Pages count from 1.
  unfoldable pub merge_hybrid_search_results :
      (fts_rows vec_rows : List Row) (page page_size : ℕ) (fts_total : Option ℕ) (rrf_k : ℕ)
      → MergeHybridSearchResultsResult
  merge_hybrid_search_results fts_rows vec_rows page page_size fts_total rrf_k =
      let sorted = ranked rrf_k fts_rows vec_rows in
      let offset = (page - 1) * page_size in
      record {
        results = slice offset (offset + page_size) sorted;
        total = elim fts_total [ none ↦ none | some n ↦ some (max n (length sorted)) ];
      }
