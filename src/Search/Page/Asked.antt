-- ===== src/Search/Page/Asked.antt =====
-- The routes of the search read back what the page asks for.
use podlog.Base.{
  ℕ, ◌≤◌, ◌≡◌, refl, sym, ap, ◌∙◌, Bool, true, false, not, Option, none, some, List, [], ◌∷◌, ◌++◌,
  append_assoc, append-nil, All, any, Text, codes, text_eq, is_empty, present, trim, join, keep,
  ◌==◌, if◌then◌else◌, Bool-cases, inl, inr, arith,
}
use podlog.Base.Assoc.{lookup, lookup-set_key}
use podlog.Base.Digits.{parse_int}
use podlog.Export.{decimal}
use podlog.Search.Routes.{
  split_commas, feed_ids_of, is_true, parameter_or, at_least_one, at_most_100, trimmed, call_for,
  search_call,
}
use podlog.Search.Page.{
  PageState, Wanted, uploads_id, real_feeds, wanted, set_if, speaker_text, search_params,
}
use podlog.Search.Page.Numerals.{parse_int-decimal}

lookup-set_if :
    (k : Text) (b : Bool) (name v : Text) (params : List (Text × Text))
    → lookup k (set_if b name v params)
      ≡ (if text_eq name k then (if b then some v else lookup k params) else lookup k params)
lookup-set_if k true name v params = lookup-set_key name k v params
lookup-set_if k false name v params = elim (Bool-cases (text_eq name k)) [
  | inl e ↦ rw e refl
  | inr e ↦ rw e refl
]

-- A parameter that is set on a condition, over what was there.
abbrev pub set_over : (k : Text) (b : Bool) (name v : Text) → Option Text → Option Text
set_over k b name v before = if text_eq name k then (if b then some v else before) else before

module _ (skip : Bool) (w : Wanted) (page : ℕ) where
  abbrev pub always : List (Text × Text)
  always =
      (codes "q", w.submitted)
      ∷ (codes "page", decimal page)
      ∷ (codes "pageSize", decimal w.size)
      ∷ []

  abbrev with_feeds : List (Text × Text)
  with_feeds = set_if (not (is_empty w.feed_filter)) (codes "feedId") w.feed_filter always

  abbrev with_uploads : List (Text × Text)
  with_uploads = set_if w.uploads (codes "uploads") (codes "true") with_feeds

  abbrev with_speaker : List (Text × Text)
  with_speaker =
      set_if (not (is_empty (speaker_text w.speaker))) (codes "speaker") (speaker_text w.speaker)
        with_uploads

  pub lookup-search_params :
      (k : Text)
      → lookup k (search_params skip w page)
        ≡ set_over k skip (codes "skipCount") (codes "true") (
            set_over k
              (not (is_empty (speaker_text w.speaker)))
              (codes "speaker")
              (speaker_text w.speaker)
              (set_over k w.uploads (codes "uploads") (codes "true") (
                set_over k
                  (not (is_empty w.feed_filter))
                  (codes "feedId")
                  w.feed_filter
                  (lookup k always))))
  unfolding search_params
  lookup-search_params k =
      lookup-set_if k skip (codes "skipCount") (codes "true") with_speaker
      ∙ ap (set_over k skip (codes "skipCount") (codes "true")) (
          lookup-set_if k (not (is_empty (speaker_text w.speaker))) (codes "speaker")
            (speaker_text w.speaker) with_uploads
          ∙ ap
              (set_over k (not (is_empty (speaker_text w.speaker))) (codes "speaker")
                (speaker_text w.speaker))
              (lookup-set_if k w.uploads (codes "uploads") (codes "true") with_feeds
                ∙ ap (set_over k w.uploads (codes "uploads") (codes "true")) (
                    lookup-set_if k (not (is_empty w.feed_filter)) (codes "feedId") w.feed_filter
                      always)))

-- An identifier of a feed: not empty, without a comma.
abbrev HasNoComma : Text → Type 0
HasNoComma = All (λ c. (c == 44) ≡ false)

abbrev pub IsId : Text → Type 0
IsId id = (is_empty id ≡ false) × HasNoComma id

split_commas-append :
    (piece s rest : Text)
    → HasNoComma s
    → split_commas piece (s ++ rest) ≡ split_commas (piece ++ s) rest
split_commas-append piece [] rest h = ap (λ p. split_commas p rest) (sym (append-nil piece))
split_commas-append piece (c ∷ s) rest (e, h) = rw e (
    split_commas-append (piece ++ c ∷ []) s rest h
    ∙ ap (λ p. split_commas p rest) (append_assoc piece (c ∷ []) s))

split_commas-join :
    (id : Text) (ids : List Text)
    → All IsId (id ∷ ids)
    → split_commas [] (join (codes ",") (id ∷ ids)) ≡ (id ∷ ids)
split_commas-join id [] ((e, h), t) =
    ap (split_commas []) (sym (append-nil id)) ∙ split_commas-append [] id [] h
split_commas-join id (next ∷ ids) ((e, h), t) =
    split_commas-append [] id (codes "," ++ join (codes ",") (next ∷ ids)) h
    ∙ ap (λ l. id ∷ l) (split_commas-join next ids t)

keep_of_ids : (ids : List Text) → All IsId ids → keep (λ id. not (is_empty id)) ids ≡ ids
keep_of_ids [] h = refl
keep_of_ids (id ∷ ids) ((e, c), h) = rw e (ap (λ l. id ∷ l) (keep_of_ids ids h))

-- The parameter that names feeds; there is none where none is selected.
abbrev pub ids_or_none : List Text → Option (List Text)
ids_or_none [] = none
ids_or_none (id ∷ ids) = some (id ∷ ids)

feeds_read :
    (ids : List Text)
    → All IsId ids
    → feed_ids_of (
        present
          (if not (is_empty (join (codes ",") ids)) then some (join (codes ",") ids) else none))
      ≡ ids_or_none ids
feeds_read [] h = refl
feeds_read (id ∷ ids) h =
    ap feed_ids_of (present_join id ids h)
    ∙ ap some
        (ap (keep (λ t. not (is_empty t))) (split_commas-join id ids h) ∙ keep_of_ids (id ∷ ids) h)
  where
    present_some :
        (s : Text)
        → is_empty s ≡ false
        → present (if not (is_empty s) then some s else none) ≡ some s
    present_some [] e = cc
    present_some (c ∷ s) e = refl

    present_join :
        (i : Text) (is : List Text)
        → All IsId (i ∷ is)
        → present (
            if not (is_empty (join (codes ",") (i ∷ is)))
            then some (join (codes ",") (i ∷ is))
            else none)
          ≡ some (join (codes ",") (i ∷ is))
    present_join [] is ((e, c), t) = cc
    present_join (x ∷ i) [] t = refl
    present_join (x ∷ i) (j ∷ is) t = refl

speaker_read :
    (o : Option Text)
    → present (if not (is_empty (speaker_text o)) then some (speaker_text o) else none) ≡ present o
speaker_read none = refl
speaker_read (some []) = refl
speaker_read (some (c ∷ s)) = refl

flag_read : (b : Bool) → is_true (if b then some (codes "true") else none) ≡ b
flag_read true = refl
flag_read false = refl

page_read : (n : ℕ) → 1 ≤ n → at_least_one (parse_int (decimal n)) ≡ some n
page_read n h = ap at_least_one (parse_int-decimal n) ∙ ap some (omega arith)

size_read : (n : ℕ) → 1 ≤ n → n ≤ 100 → at_most_100 (at_least_one (parse_int (decimal n))) ≡ some n
size_read n h k = ap at_most_100 (page_read n h) ∙ ap some (omega arith)

-- The request of a page is read by the routes of the flat and the grouped search as it is meant:
-- where the submitted text is not blank, the identifiers of the selected feeds are not empty and
-- have no comma, and the page is at least 1 and its size between 1 and 100, the route calls the
-- search with the trimmed text, the selected feeds or none, whether uploads are among them, the
-- page, its size, whether the count is skipped, and the speaker, if one is named.
pub search_call-search_params :
    (skip : Bool) (s : PageState)
    → is_empty (trim s.submitted_query) ≡ false
    → All IsId (keep (λ id. not (text_eq id uploads_id)) s.selected_feed_ids)
    → 1 ≤ s.page
    → 1 ≤ s.page_size
    → s.page_size ≤ 100
    → search_call (λ name. lookup name (search_params skip (wanted s) s.page))
      ≡ some (record {
        q = trim s.submitted_query;
        feed_ids = ids_or_none (keep (λ id. not (text_eq id uploads_id)) s.selected_feed_ids);
        include_manual_uploads = any (λ id. text_eq id uploads_id) s.selected_feed_ids;
        page = some s.page;
        page_size = some s.page_size;
        skip_count = skip;
        speaker_label = present s.selected_speaker;
      })
unfolding search_call wanted
search_call-search_params skip s text ids page low high =
    ap (λ o. call_for (λ name. lookup name (search_params skip (wanted s) s.page)) (trimmed o))
      (lookup-search_params skip (wanted s) s.page (codes "q"))
    ∙ (ap (call_for (λ name. lookup name (search_params skip (wanted s) s.page)))
          (trimmed_text (trim s.submitted_query) text)
        ∙ λ i. some (record {
          q = trim s.submitted_query;
          feed_ids =
              (ap (λ o. feed_ids_of (present o))
                    (lookup-search_params skip (wanted s) s.page (codes "feedId"))
                  ∙ feeds_read (real_feeds s.selected_feed_ids) ids)
                i;
          include_manual_uploads =
              (ap is_true (lookup-search_params skip (wanted s) s.page (codes "uploads"))
                  ∙ flag_read (any (λ id. text_eq id uploads_id) s.selected_feed_ids))
                i;
          page =
              (ap (λ o. at_least_one (parse_int (parameter_or o (codes "1"))))
                    (lookup-search_params skip (wanted s) s.page (codes "page"))
                  ∙ page_read s.page page)
                i;
          page_size =
              (ap (λ o. at_most_100 (at_least_one (parse_int (parameter_or o (codes "20")))))
                    (lookup-search_params skip (wanted s) s.page (codes "pageSize"))
                  ∙ size_read s.page_size low high)
                i;
          skip_count =
              (ap is_true (lookup-search_params skip (wanted s) s.page (codes "skipCount"))
                  ∙ flag_read skip)
                i;
          speaker_label =
              (ap present (lookup-search_params skip (wanted s) s.page (codes "speaker"))
                  ∙ speaker_read s.selected_speaker)
                i;
        }))
  where
    trimmed_text : (t : Text) → is_empty t ≡ false → present (some t) ≡ some t
    trimmed_text [] e = cc
    trimmed_text (c ∷ t) e = refl
