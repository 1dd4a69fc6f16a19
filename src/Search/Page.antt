-- ===== src/Search/Page.antt =====
-- apps/web/src/app/search/page.tsx: the Search page's state and handlers, the requests of its two
-- views, and the totals that it keeps between the pages of one search. The names and values of a
-- request are a list of pairs, in the order in which they are set.
pub mod Numerals
pub mod Keys
pub mod Asked
pub mod Totals
use podlog.Base.{
  ℕ, ◌+◌, ◌-◌, ◌/◌, max, min, Bool, true, false, not, ◌&&◌, ◌||◌, Option, none, some, List, [], ◌∷◌,
  ◌++◌, keep, any, Text, codes, text_eq, trim, is_empty, join, ltb, ◌==◌, if◌then◌else◌,
}
use podlog.Base.Assoc.{lookup, set_key}
use podlog.Export.{decimal}

abbrev pub default_page_size : ℕ
default_page_size = 20

abbrev pub is_valid_page_size : ℕ → Bool
is_valid_page_size n = n == 20 || n == 50 || n == 100

pub data ViewMode : Type 0 where
  grouped flat : ViewMode

pub record PageState : Type 0 where
  pub query : Text
  pub submitted_query : Text
  pub selected_feed_ids : List Text
  pub selected_speaker : Option Text
  pub page : ℕ
  pub page_size : ℕ
  pub view_mode : ViewMode

unfoldable pub handle_submit : PageState → PageState
handle_submit s = record s { page = 1; submitted_query = trim s.query }

unfoldable pub handle_clear : PageState → PageState
handle_clear s = record s { query = []; submitted_query = []; page = 1; selected_speaker = none }

-- The effect on the address's `q`.
unfoldable pub sync_query : (url_query : Text) → PageState → PageState
sync_query url_query s =
    if not (is_empty url_query) && not (text_eq url_query s.submitted_query)
    then record s { query = url_query; submitted_query = url_query; page = 1 }
    else s

unfoldable pub select_feeds : List Text → PageState → PageState
select_feeds ids s = record s { selected_feed_ids = ids; selected_speaker = none; page = 1 }

unfoldable pub select_speaker : Option Text → PageState → PageState
select_speaker speaker s = record s { selected_speaker = speaker; page = 1 }

unfoldable pub change_view : ViewMode → PageState → PageState
change_view mode s = record s { view_mode = mode; page = 1 }

unfoldable pub change_page_size : ℕ → PageState → PageState
change_page_size n s = record s {
  page_size = if is_valid_page_size n then n else default_page_size;
  page = 1;
}

-- `Math.ceil(total / pageSize)`
unfoldable pub total_pages : (total page_size : ℕ) → ℕ
total_pages total page_size = (total + (page_size - 1)) / page_size

-- A click on a button of the pagination, which is disabled at its end.
unfoldable pub click_previous : PageState → PageState
click_previous s = if s.page == 1 then s else record s { page = max 1 (s.page - 1) }

unfoldable pub click_next : (pages : ℕ) → PageState → PageState
click_next pages s = if s.page == pages then s else record s { page = min pages (s.page + 1) }

-- What is searched for, the page apart.
pub record Wanted : Type 0 where
  pub submitted : Text
  pub feed_filter : Text
  pub uploads : Bool
  pub speaker : Option Text
  pub size : ℕ

abbrev pub uploads_id : Text
uploads_id = codes "__uploads__"

abbrev pub real_feeds : List Text → List Text
real_feeds ids = keep (λ id. not (text_eq id uploads_id)) ids

unfoldable pub wanted : PageState → Wanted
wanted s = record {
  submitted = s.submitted_query;
  feed_filter = join (codes ",") (real_feeds s.selected_feed_ids);
  uploads = any (λ id. text_eq id uploads_id) s.selected_feed_ids;
  speaker = s.selected_speaker;
  size = s.page_size;
}

abbrev pub bool_text : Bool → Text
bool_text true = codes "true"
bool_text false = codes "false"

abbrev pub or_null : Option Text → Text
or_null none = codes "null"
or_null (some t) = t

abbrev pub colon : Text → Text → Text
colon s t = s ++ 58 ∷ t

-- flatCacheKey, groupedCacheKey
unfoldable pub cache_key : Wanted → Text
cache_key w =
    colon
      (colon (colon (colon w.submitted w.feed_filter) (bool_text w.uploads)) (or_null w.speaker))
      (decimal w.size)

abbrev pub set_if : Bool → (name value : Text) → List (Text × Text) → List (Text × Text)
set_if true name value params = set_key name value params
set_if false name value params = params

abbrev pub speaker_text : Option Text → Text
speaker_text none = []
speaker_text (some t) = t

unfoldable pub search_params : (can_skip_count : Bool) → Wanted → (page : ℕ) → List (Text × Text)
search_params can_skip_count w page = set_if can_skip_count (codes "skipCount") (codes "true") (
    set_if (not (is_empty (speaker_text w.speaker))) (codes "speaker") (speaker_text w.speaker) (
      set_if w.uploads (codes "uploads") (codes "true") (
        set_if (not (is_empty w.feed_filter)) (codes "feedId") w.feed_filter (
          (codes "q", w.submitted)
          ∷ (codes "page", decimal page)
          ∷ (codes "pageSize", decimal w.size)
          ∷ []))))

-- A page's totals, which are -1 where they were not counted, its coverage, and the rest of it.
pub record PageAnswer (Totals Coverage Rest : Type 0) : Type 0 where
  pub totals : Option Totals
  pub coverage : Coverage
  pub rest : Rest

-- The totals that are kept under the key.
abbrev pub kept_totals : {Totals : Type 0} → Option (Text × Totals) → (key : Text) → Option Totals
kept_totals none key = none
kept_totals (some (k, totals)) key = if text_eq k key then some totals else none

abbrev pub is_kept : {Totals : Type 0} → Option Totals → Bool
is_kept none = false
is_kept (some totals) = true

module _ {Totals Coverage Rest : Type 0} where
  abbrev pub settle :
      Option (Text × Totals)
      → (key : Text) → Option Totals
      → Coverage
      → Rest
      → Option (PageAnswer Totals Coverage Rest) × Option (Text × Totals)
  settle cached key none c r =
      (some (record { totals = kept_totals cached key; coverage = c; rest = r }), cached)
  settle cached key (some t) c r =
      (some (record { totals = some t; coverage = c; rest = r }), some (key, t))

  abbrev pub finish_fetch :
      Option (Text × Totals)
      → (key : Text) → Option (PageAnswer Totals Coverage Rest)
      → Option (PageAnswer Totals Coverage Rest) × Option (Text × Totals)
  finish_fetch cached key none = (none, cached)
  finish_fetch cached key (some a) = settle cached key a.totals a.coverage a.rest

  module _ (blank : PageAnswer Totals Coverage Rest)
      (ask : List (Text × Text) → Option (PageAnswer Totals Coverage Rest)) where
    -- A fetch from the state of the cache, with what the page shows and the cache behind it.
    unfoldable pub fetch_page :
        Option (Text × Totals)
        → Wanted
        → (page : ℕ) → Option (PageAnswer Totals Coverage Rest) × Option (Text × Totals)
    fetch_page cached w page =
        if is_empty w.submitted
        then (some blank, cached)
        else finish_fetch cached (cache_key w)
            (ask (search_params (ltb 1 page && is_kept (kept_totals cached (cache_key w))) w page))

    -- Fetches one after the other.
    unfoldable pub fetch_pages :
        Option (Text × Totals) → List (Wanted × ℕ) → List (Option (PageAnswer Totals Coverage Rest))
    fetch_pages cached [] = []
    fetch_pages cached ((w, page) ∷ later) =
        let fetched = fetch_page cached w page in fetched.0 ∷ fetch_pages fetched.1 later

-- totalFeeds, totalEpisodes and totalMentions, of which the last tells whether they were counted.
pub record GroupedTotals : Type 0 where
  pub total_feeds : ℕ
  pub total_episodes : ℕ
  pub total_mentions : ℕ

-- The query of the flat view.
unfoldable pub fetch_flat :
    {Coverage Rest : Type 0}
    → (blank : PageAnswer ℕ Coverage Rest)
    → (List (Text × Text) → Option (PageAnswer ℕ Coverage Rest))
    → Option (Text × ℕ)
    → Wanted
    → (page : ℕ) → Option (PageAnswer ℕ Coverage Rest) × Option (Text × ℕ)
fetch_flat blank ask cached w page = fetch_page blank ask cached w page

-- The query of the grouped view.
unfoldable pub fetch_grouped :
    {Coverage Rest : Type 0}
    → (blank : PageAnswer GroupedTotals Coverage Rest)
    → (List (Text × Text) → Option (PageAnswer GroupedTotals Coverage Rest))
    → Option (Text × GroupedTotals)
    → Wanted
    → (page : ℕ) → Option (PageAnswer GroupedTotals Coverage Rest) × Option (Text × GroupedTotals)
fetch_grouped blank ask cached w page = fetch_page blank ask cached w page
