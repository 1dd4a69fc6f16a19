-- ===== src/Search/Page/Totals.antt =====
-- The totals that are kept between the pages of a search: fetches show what they would show if
-- every page were counted, but for the coverage.
use mathlib.Core.Option
use podlog.Base.{
  ℕ, ◌≡◌, Bool, true, false, Option, none, some, List, Text, is_empty, map, if◌then◌else◌,
}
use podlog.Search.Page.{Wanted, cache_key, search_params, PageAnswer}
use podlog.Search.Page.Keys.{IsPlain}

-- The answer where the totals are `t`, if they are counted.
abbrev pub reply :
    {Totals Coverage Rest : Type 0}
    → (skip_count : Bool) → Totals
    → Coverage
    → Option Rest
    → Option (PageAnswer Totals Coverage Rest)
reply skip_count t c none = none
reply true t c (some r) = some (record { totals = none; coverage = c; rest = r })
reply false t c (some r) = some (record { totals = some t; coverage = c; rest = r })

-- What a page shows, its coverage apart.
abbrev pub uncovered :
    {Totals Coverage Rest : Type 0} → PageAnswer Totals Coverage Rest → Option Totals × Rest
uncovered a = (a.totals, a.rest)

module _ {Totals Coverage Rest : Type 0} (blank : PageAnswer Totals Coverage Rest)
    (ask : List (Text × Text) → Option (PageAnswer Totals Coverage Rest)) where
  -- What the page would show, its coverage apart, if the fetch were counted.
  abbrev pub if_counted : Wanted × ℕ → Option (Option Totals × Rest)
  if_counted (w, page) =
      if is_empty w.submitted
      then some (uncovered blank)
      else Option.map uncovered (ask (search_params false w page))

module _ {Totals Coverage Rest : Type 0} (blank : PageAnswer Totals Coverage Rest)
    (ask : List (Text × Text) → Option (PageAnswer Totals Coverage Rest)) (count : Wanted → Totals)
    (coverage : (skip_count : Bool) → Wanted → (page : ℕ) → Coverage)
    (rows : Wanted → (page : ℕ) → Option Rest)
    (ask-answers : (skip_count : Bool) (w : Wanted) (page : ℕ)
      → ask (search_params skip_count w page)
        ≡ reply skip_count (count w) (coverage skip_count w page) (rows w page)) where
  -- The kept totals are those of the search whose key they have.
  abbrev IsTrue : Option (Text × Totals) → Type 0
  IsTrue none = Unit
  IsTrue (some (k, t)) = (w : Wanted) × IsPlain w × (k ≡ cache_key w) × (t ≡ count w)
