-- ===== src/Search/Tests.antt =====
-- The searches on concrete input.
use Prim.Native.Nat.{◌/◌}
use mathlib.Core.Option
use mathlib.Core.List.{Perm}
use podlog.Base.{
  not, is_empty, is_space, trim, ℕ, ◌+◌, ◌*◌, ◌≤◌, ◌≡◌, refl, Bool, true, false, ◌||◌, Option, none,
  some, List, [], ◌∷◌, ◌++◌, arith, Text, codes, text_eq, ltb, if◌then◌else◌, any, length, take,
  map, max, keep,
}
use podlog.Base.Assoc.{lookup, keys, values, IsDistinct}
use podlog.Number.{Number}
use podlog.Search.Sql.{Sql, Param, IsBound, text, place}
use podlog.Search.Filters.{FilterOptions, build_joined_filters, build_metadata_filters}
use podlog.Search.Filters.Chosen.{
  build_filters-chosen, chosen_clauses, chosen_params, joined_conditions, metadata_conditions,
}
use podlog.Search.Query.{Mode, metadata_only, transcript_hybrid, parse_search_query, parser}
use podlog.Search.Query.Ink.{ink}
use podlog.Search.Query.Kept.{LeavesSomething, parse_search_query-LeavesSomething}
use podlog.Search.Hybrid.{
  HybridSearchResultItem, Row, nil, num, str, merge_rows, ranked, merge_hybrid_search_results,
}
use podlog.Search.Hybrid.Buckets.{merge_rows-buckets, has_bucket}
use podlog.Search.Hybrid.Scores.{merge_rows-score, vec_score, last_entry}
use podlog.Search.Hybrid.Pages.{
  ranked-IsDescending, IsDescending, ties_with, merge_hybrid_search_results-pages,
}
use podlog.Search.Pool.{
  SearchPage, build_coverage, to_coverage, Pool, GroupedCounts, GroupingRow, TurnRow,
  EpisodeCoverage,
}
use podlog.Search.Segments.{search_segments, search_segments_metadata}
use podlog.Search.Segments.Steady.{uncounted, search_segments-steady}
use podlog.Search.Segments.Sent.{Agree, search_segments-bound}
use podlog.Search.Grouping.{group_rows, group_rows_by_feed, episode_of}
use podlog.Search.Grouping.Totals.{group_rows-keeps, episodes_at, count_at, rows_of, mentions}
use podlog.Search.Grouped.{search_grouped}
use podlog.Search.Grouped.Bound.{GroupedAgree, search_grouped-bound}
use podlog.Search.Routes.{SearchCall, RouteReply, found, get_search, search_call}
use podlog.Search.Page.{PageState, Wanted, flat, wanted, speaker_text, search_params, PageAnswer}
use podlog.Search.Page.Asked.{set_over, always, search_call-search_params}
use podlog.Search.Routes.Limits.{IsLimited, search_call-IsLimited}
use podlog.Search.Mentions.{mentions_of}
use podlog.Search.Mentions.Context.{mentions_of-eq, mentions_spec}

-- Whole numbers in millionths.
abbrev millionths : Number
millionths = record {
  Num = ℕ;
  nat = λ n. n * 1000000;
  parse_float = λ s. 0;
  show = λ x. x ∷ [];
  floor_div = λ x k. x / k;
  recip = λ n. 1000000 / n;
  add = λ x y. x + y;
  lt = ltb;
  mul = λ x y. x * y;
  div = λ x y. x / y;
  log = λ x. x;
}

abbrev row : ℕ → ℕ → Row millionths
row id start_time = λ name.
    if text_eq (codes name) (codes "id")
    then num id
    else if text_eq (codes name) (codes "start_time")
    then num start_time
    else if text_eq (codes name) (codes "episode_id")
    then str (codes "ep")
    else nil

abbrev text_rows : List (Row millionths)
text_rows = row 1 10 ∷ row 2 40 ∷ row 3 12 ∷ []

abbrev vector_rows : List (Row millionths)
vector_rows = row 4 41 ∷ row 5 95 ∷ []

abbrev line : Text
line = codes "hello speaker:ann title:\"big fish\""

line-ink : ink line ≡ true
unfolding is_space
line-ink = refl

-- The parsed line.
line_parsed : (parse_search_query line).speaker_filter ≡ some (codes "ann")
unfolding parser
line_parsed = refl

parse_search_query-LeavesSomething_example : LeavesSomething (parse_search_query line)
parse_search_query-LeavesSomething_example = parse_search_query-LeavesSomething line line-ink

merge_rows-buckets_example :
    IsDistinct (keys (merge_rows millionths 60 text_rows vector_rows))
    × ((q : Text)
        → any (λ j. text_eq j q) (keys (merge_rows millionths 60 text_rows vector_rows))
          ≡ (has_bucket millionths q vector_rows || has_bucket millionths q text_rows))
merge_rows-buckets_example = merge_rows-buckets millionths 60 text_rows vector_rows

abbrev bucket : Text
bucket = codes "ep:" ++ (30 ∷ [])

merge_rows-score_example :
    Option.map (λ e. e.rrf_score) (lookup bucket (merge_rows millionths 60 text_rows vector_rows))
    ≡ vec_score millionths bucket 60 0 vector_rows
        (Option.map (λ e. e.rrf_score) (last_entry millionths bucket 60 0 text_rows none))
merge_rows-score_example = merge_rows-score millionths bucket 60 text_rows vector_rows

millionths_asymmetric : (a b : ℕ) → ltb a b ≡ true → ltb b a ≡ false
millionths_asymmetric a b h = ground arith

millionths_transitive : (a b c : ℕ) → ltb a b ≡ false → ltb b c ≡ false → ltb a c ≡ false
millionths_transitive a b c h k = ground arith

ranked-IsDescending_example :
    let merged = values (merge_rows millionths 60 text_rows vector_rows) in
    let ranking = ranked millionths 60 text_rows vector_rows in
    Perm ranking merged
    × IsDescending millionths ranking
    × (keep (ties_with millionths 16393) ranking ≡ keep (ties_with millionths 16393) merged)
ranked-IsDescending_example =
    ranked-IsDescending millionths millionths_asymmetric millionths_transitive 60 text_rows
      vector_rows 16393

merge_hybrid_search_results-pages_example :
    let page = merge_hybrid_search_results millionths text_rows vector_rows 2 2 (some 3) 60 in
    let sorted = ranked millionths 60 text_rows vector_rows in
    (length page.results ≤ 2)
    × (take 4 sorted ≡ take 2 sorted ++ page.results)
    × (page.total ≡ Option.map (λ t. max t (length sorted)) (some 3))
merge_hybrid_search_results-pages_example =
    merge_hybrid_search_results-pages millionths 60 text_rows vector_rows (some 3) 1 2

abbrev options : FilterOptions
options = record {
  speaker_label = none;
  speaker_like = some (codes "%ann%");
  title_filter = some (codes "big fish");
  description_filter = none;
}

build_filters-chosen_example :
    let joined = build_joined_filters options 2 "st" in
    let metadata = build_metadata_filters options 2 in
    (joined.clauses ≡ chosen_clauses 2 (joined_conditions options "st"))
    × (joined.params ≡ chosen_params (joined_conditions options "st"))
    × (metadata.clauses ≡ chosen_clauses 2 (metadata_conditions options))
    × (metadata.params ≡ chosen_params (metadata_conditions options))
build_filters-chosen_example = build_filters-chosen options 2 "st"

-- A database that refuses a statement whose text begins with a place it has no parameter for.
abbrev unless_loose {ℓ} : {A : Type ℓ} → A → List Param → Sql → Option A
unless_loose x [] (place n ∷ sql) = none
unless_loose x _ _ = some x

unless_loose-bound {ℓ} :
    {A : Type ℓ} (x : A) (params : List Param) (sql : Sql)
    → IsBound (record { sql = sql; params = params })
    → some x ≡ unless_loose x params sql
unless_loose-bound x [] [] b = refl
unless_loose-bound x [] (text s ∷ sql) b = refl
unless_loose-bound x [] (place n ∷ sql) b = absurd (let w = b.within in omega arith)
unless_loose-bound x (v ∷ vs) sql b = refl

abbrev coverage : List EpisodeCoverage
coverage = record { processed = 3; total = 4 } ∷ []

abbrev grouping_row : GroupingRow ℕ
grouping_row = record {
  feed_id = some (codes "feed");
  feed_title = codes "Fish";
  feed_mode = codes "rss";
  episode_id = codes "ep";
  episode_title = codes "Big fish";
  audio_url = [];
  audio_local_path = none;
  episode_url = none;
  mention_count = 2;
  best_rank = 5;
}

abbrev turn : ℕ → Bool → TurnRow ℕ
turn id is_match = record {
  id = id;
  start_time = id;
  end_time = id + 1;
  speaker_label = none;
  speaker_display = none;
  full_text = [];
  is_match = is_match;
  snippet = [];
  rank = 0;
}

abbrev counts : GroupedCounts
counts = record { total_episodes = 1; total_feeds = 1; total_mentions = 2; has_manual = false }

abbrev pool : Pool millionths
pool = record {
  metadata_rows = λ q. some [];
  rows = λ q. some text_rows;
  count = λ q. some 3;
  coverage = λ q. some coverage;
  grouping_rows = λ q. some (grouping_row ∷ []);
  grouped_counts = λ q. some counts;
  turn_rows = λ q. some [];
}

abbrev strict_pool : Pool millionths
strict_pool = record {
  metadata_rows = λ q. unless_loose [] q.params q.sql;
  rows = λ q. unless_loose text_rows q.params q.sql;
  count = λ q. unless_loose 3 q.params q.sql;
  coverage = λ q. unless_loose coverage q.params q.sql;
  grouping_rows = λ q. unless_loose (grouping_row ∷ []) q.params q.sql;
  grouped_counts = λ q. unless_loose counts q.params q.sql;
  turn_rows = λ q. unless_loose [] q.params q.sql;
}

pools-Agree : Agree pool strict_pool
pools-Agree = record {
  metadata_rows = λ q b. unless_loose-bound [] q.params q.sql b;
  rows = λ q b. unless_loose-bound text_rows q.params q.sql b;
  count = λ q b. unless_loose-bound 3 q.params q.sql b;
  coverage = λ q b. unless_loose-bound coverage q.params q.sql b;
}

pools-GroupedAgree : GroupedAgree pool strict_pool
pools-GroupedAgree = record {
  grouping_rows = λ q b. unless_loose-bound (grouping_row ∷ []) q.params q.sql b;
  grouped_counts = λ q b. unless_loose-bound counts q.params q.sql b;
  coverage = λ q b. unless_loose-bound coverage q.params q.sql b;
}

search_segments-bound_example :
    search_segments millionths pool none true 1 20 false (λ t. none) line none
    ≡ search_segments millionths strict_pool none true 1 20 false (λ t. none) line none
search_segments-bound_example =
    search_segments-bound millionths pool strict_pool pools-Agree none true 1 20 false (λ t. none)
      line none

search_grouped-bound_example :
    search_grouped millionths pool false none true 1 20 line none
    ≡ search_grouped millionths strict_pool false none true 1 20 line none
search_grouped-bound_example =
    search_grouped-bound millionths pool strict_pool pools-GroupedAgree false none true 1 20 line
      none

group_rows-keeps_example :
    let rows = grouping_row ∷ grouping_row ∷ [] in
    let grouped = group_rows rows [] in
    (group_rows_by_feed rows ≡ values grouped)
    × IsDistinct (keys grouped)
    × ((key : Text)
        → (episodes_at (lookup key grouped) ≡ map episode_of (rows_of key rows))
          × (count_at (lookup key grouped) ≡ mentions (rows_of key rows)))
group_rows-keeps_example = group_rows-keeps (grouping_row ∷ grouping_row ∷ [])

abbrev turns : List (TurnRow ℕ)
turns = turn 1 false ∷ turn 2 true ∷ turn 3 false ∷ turn 4 true ∷ []

mentions_of-eq_example : mentions_of turns ≡ mentions_spec turns 0 turns
mentions_of-eq_example = mentions_of-eq turns

abbrev parameters : Text → Option Text
parameters name = if text_eq name (codes "q") then some (codes " fish ") else none

search_call-IsLimited_example : IsLimited (search_call parameters)
search_call-IsLimited_example = search_call-IsLimited parameters

-- The Search page at its second page.
abbrev searching : PageState
searching = record {
  query = codes "fish";
  submitted_query = codes " fish";
  selected_feed_ids = codes "f1" ∷ codes "__uploads__" ∷ codes "f2" ∷ [];
  selected_speaker = some (codes "Ann");
  page = 2;
  page_size = 20;
  view_mode = flat;
}

search_call-search_params_example :
    search_call (λ name. lookup name (search_params true (wanted searching) 2))
    ≡ some (record {
      q = codes "fish";
      feed_ids = some (codes "f1" ∷ codes "f2" ∷ []);
      include_manual_uploads = true;
      page = some 2;
      page_size = some 20;
      skip_count = true;
      speaker_label = some (codes "Ann");
    })
unfolding trim is_space
search_call-search_params_example =
    search_call-search_params true searching refl
      ((refl, (refl, (refl, tt))), ((refl, (refl, (refl, tt))), tt)) (omega arith) (omega arith)
      (omega arith)

-- The flat search over the pool, which a request without a page or a page size does not reach.
abbrev search_at : SearchCall → Option ℕ → Option ℕ → Option (SearchPage millionths)
search_at call none size = none
search_at call (some page) none = none
search_at call (some page) (some size) =
    search_segments millionths pool call.feed_ids call.include_manual_uploads page size
      call.skip_count (λ t. none) call.q call.speaker_label

abbrev flat_search : SearchCall → Option (SearchPage millionths)
flat_search call = search_at call call.page call.page_size

-- What the page reads of a reply.
abbrev FlatAnswer : Type 0
FlatAnswer = PageAnswer ℕ EpisodeCoverage (List (HybridSearchResultItem millionths))

abbrev answer_of : RouteReply (SearchPage millionths) → Option FlatAnswer
answer_of (found p) = some (record { totals = p.total; coverage = p.coverage; rest = p.results })
answer_of _ = none

-- The route of the flat search, over the pool.
abbrev flat_route : List (Text × Text) → Option FlatAnswer
flat_route params = answer_of (get_search (λ name. lookup name params) flat_search)

abbrev rest_of : Option FlatAnswer → Option (List (HybridSearchResultItem millionths))
rest_of none = none
rest_of (some a) = some a.rest

abbrev counted_in : Mode → ℕ
counted_in metadata_only = 3
counted_in transcript_hybrid = max 3 (length (ranked millionths 60 text_rows []))

abbrev count_for : Option Text → ℕ
count_for none = 0
count_for (some q) = counted_in (parse_search_query q).mode

abbrev coverage_of : Bool → EpisodeCoverage
coverage_of skip_count = to_coverage (if skip_count then none else some coverage)

abbrev with_skip : Bool → SearchCall → SearchCall
with_skip skip_count call = record call { skip_count = skip_count }

-- The parameters that a request has, by their names.
abbrev parameters_of : Bool → Wanted → (page : ℕ) → (name : Text) → Option Text
parameters_of skip_count w page k = set_over k skip_count (codes "skipCount") (codes "true") (
    set_over k (not (is_empty (speaker_text w.speaker))) (codes "speaker") (speaker_text w.speaker)
      (set_over k w.uploads (codes "uploads") (codes "true") (
        set_over k (not (is_empty w.feed_filter)) (codes "feedId") w.feed_filter
          (lookup k (always skip_count w page)))))

abbrev blank_answer : FlatAnswer
blank_answer = record { totals = some 0; coverage = to_coverage none; rest = [] }

-- The pages of a search for a title.
abbrev titled : ℕ → SearchPage millionths
titled page = record {
  results = [];
  total = some 3;
  page = page;
  page_size = 20;
  coverage = to_coverage (some coverage);
}

search_segments-steady_example :
    ((titled 1).total ≡ (titled 2).total)
    × (search_segments millionths pool none true 2 20 true (λ t. none) (codes "title:fish") none
        ≡ some (uncounted (titled 2)))
unfolding parser search_segments search_segments_metadata build_coverage
search_segments-steady_example =
    search_segments-steady millionths pool none true 1 2 20 (λ t. none) (codes "title:fish") none
      (titled 1) (titled 2) refl refl
