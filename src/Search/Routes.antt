-- ===== src/Search/Routes.antt =====
-- apps/web/src/app/api/search: the routes of the searches, which read the parameters of a request.
-- `get` is `searchParams.get`. A number that is NaN is `none`.
pub mod Limits
use podlog.Base.{
  ℕ, max, min, Bool, true, false, not, Option, none, some, List, [], ◌∷◌, ◌++◌, keep, Text, codes,
  present, text_eq, trim, is_empty, ◌==◌, if◌then◌else◌,
}
use podlog.Base.Digits.{Whole, plus, minus, parse_int}

-- The arguments that a route calls the search with.
pub record SearchCall : Type 0 where
  pub q : Text
  pub feed_ids : Option (List Text)
  pub include_manual_uploads : Bool
  pub page : Option ℕ
  pub page_size : Option ℕ
  pub skip_count : Bool
  pub speaker_label : Option Text

-- `failed` is a search that was rejected.
pub data RouteReply (Result : Type 0) : Type 0 where
  missing : (what : Text) → RouteReply Result
  failed : RouteReply Result
  found : Result → RouteReply Result

-- `s.split(",")`; `piece` is what the first piece has so far.
abbrev pub split_commas : (piece : Text) → Text → List Text
split_commas piece [] = piece ∷ []
split_commas piece (c ∷ s) =
    if c == 44 then piece ∷ split_commas [] s else split_commas (piece ++ c ∷ []) s

abbrev pub feed_ids_of : Option Text → Option (List Text)
feed_ids_of none = none
feed_ids_of (some raw) = some (keep (λ id. not (is_empty id)) (split_commas [] raw))

abbrev pub is_true : Option Text → Bool
is_true none = false
is_true (some t) = text_eq t (codes "true")

abbrev pub parameter_or : Option Text → Text → Text
parameter_or none d = d
parameter_or (some t) d = t

-- `Math.max(1, n)`
abbrev pub at_least_one : Option Whole → Option ℕ
at_least_one none = none
at_least_one (some (plus n)) = some (max 1 n)
at_least_one (some (minus n)) = some 1

-- `Math.min(100, n)`
abbrev pub at_most_100 : Option ℕ → Option ℕ
at_most_100 none = none
at_most_100 (some n) = some (min 100 n)

abbrev pub trimmed : Option Text → Option Text
trimmed none = none
trimmed (some t) = present (some (trim t))

abbrev pub reply_of : {Result : Type 0} → Option Result → RouteReply Result
reply_of none = failed
reply_of (some r) = found r

module _ (get : (name : Text) → Option Text) where
  abbrev pub call_of : (q : Text) → SearchCall
  call_of q = record {
    q = q;
    feed_ids = feed_ids_of (present (get (codes "feedId")));
    include_manual_uploads = is_true (get (codes "uploads"));
    page = at_least_one (parse_int (parameter_or (get (codes "page")) (codes "1")));
    page_size =
        at_most_100 (at_least_one (parse_int (parameter_or (get (codes "pageSize")) (codes "20"))));
    skip_count = is_true (get (codes "skipCount"));
    speaker_label = present (get (codes "speaker"));
  }

  abbrev pub call_for : Option Text → Option SearchCall
  call_for none = none
  call_for (some q) = some (call_of q)

  -- What a route of the flat or the grouped search calls, if it does.
  unfoldable pub search_call : Option SearchCall
  search_call = call_for (trimmed (get (codes "q")))

  module _ {Result : Type 0} (search : SearchCall → Option Result) where
    abbrev pub answer_call : Option SearchCall → RouteReply Result
    answer_call none = missing (codes "q is required")
    answer_call (some call) = reply_of (search call)

    -- `GET` of search/route.ts.
    unfoldable pub get_search : RouteReply Result
    get_search = answer_call search_call

    -- `GET` of search/grouped/route.ts.
    unfoldable pub get_grouped : RouteReply Result
    get_grouped = answer_call search_call

  module _ {Result : Type 0} (search_mentions : (q episode_id : Text) → Option Result) where
    abbrev pub mentions_in : (q : Text) → Option Text → RouteReply Result
    mentions_in q none = missing (codes "episodeId is required")
    mentions_in q (some episode_id) = reply_of (search_mentions q episode_id)

    -- `GET` of search/mentions/route.ts.
    unfoldable pub get_mentions : RouteReply Result
    get_mentions = elim (trimmed (get (codes "q"))) [
      | none ↦ missing (codes "q is required")
      | some q ↦ mentions_in q (trimmed (get (codes "episodeId")))
    ]
