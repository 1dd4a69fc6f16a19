-- ===== src/Search/Routes/Limits.antt =====
-- The limits of what the routes ask for.
use podlog.Base.{
  ℕ, ◌≤◌, ◌≡◌, refl, sym, ap, ◌∙◌, false, not, Option, none, some, List, [], ◌∷◌, keep, All, Text,
  codes, present, trim, trim_idem, is_empty, arith,
}
use podlog.Base.Digits.{Whole, plus, minus, parse_int}
use podlog.Search.Routes.{
  SearchCall, split_commas, feed_ids_of, at_least_one, at_most_100, parameter_or, trimmed, call_for,
  search_call,
}

abbrev IsPage : Option ℕ → Type 0
IsPage none = Unit
IsPage (some n) = 1 ≤ n

abbrev IsPageSize : Option ℕ → Type 0
IsPageSize none = Unit
IsPageSize (some n) = (1 ≤ n) × (n ≤ 100)

abbrev HasText : Text → Type 0
HasText t = is_empty t ≡ false

abbrev AreIds : Option (List Text) → Type 0
AreIds none = Unit
AreIds (some ids) = All HasText ids

-- A call for a trimmed line that is not empty, with no empty identifier, from a page that is not in
-- front of the first, with one to a hundred results.
abbrev pub IsLimited : Option SearchCall → Type 0
IsLimited none = Unit
IsLimited (some call) =
    HasText call.q
    × (trim call.q ≡ call.q)
    × AreIds call.feed_ids
    × IsPage call.page
    × IsPageSize call.page_size

keep-HasText : (ts : List Text) → All HasText (keep (λ t. not (is_empty t)) ts)
keep-HasText [] = tt
keep-HasText ([] ∷ ts) = keep-HasText ts
keep-HasText ((c ∷ t) ∷ ts) = (refl, keep-HasText ts)

feed_ids_of-AreIds : (raw : Option Text) → AreIds (feed_ids_of raw)
feed_ids_of-AreIds none = tt
feed_ids_of-AreIds (some raw) = keep-HasText (split_commas [] raw)

at_least_one-IsPage : (n : Option Whole) → IsPage (at_least_one n)
at_least_one-IsPage none = tt
at_least_one-IsPage (some (plus n)) = omega arith
at_least_one-IsPage (some (minus n)) = omega arith

at_most_100-IsPageSize : (n : Option Whole) → IsPageSize (at_most_100 (at_least_one n))
at_most_100-IsPageSize none = tt
at_most_100-IsPageSize (some (plus n)) = (omega arith, omega arith)
at_most_100-IsPageSize (some (minus n)) = (omega arith, omega arith)

present-trimmed : (u q : Text) → trim u ≡ u → present (some u) ≡ some q → HasText q × (trim q ≡ q)
present-trimmed [] q e h = ground arith
present-trimmed (c ∷ u) q e h =
    let same : (c ∷ u) ≡ q = ground (arith, h) in
    (ap is_empty (sym same), ap trim (sym same) ∙ (e ∙ same))

trimmed-HasText : (o : Option Text) (q : Text) → trimmed o ≡ some q → HasText q × (trim q ≡ q)
trimmed-HasText none q h = ground arith
trimmed-HasText (some t) q h = present-trimmed (trim t) q (trim_idem t) h

call_for-IsLimited :
    (get : (name : Text) → Option Text) (o : Option Text)
    → ((q : Text) → o ≡ some q → HasText q × (trim q ≡ q))
    → IsLimited (call_for get o)
call_for-IsLimited get none h = tt
call_for-IsLimited get (some q) h =
    let (some_text, is_trimmed) = h q refl in
    (
      some_text,
      is_trimmed,
      feed_ids_of-AreIds (present (get (codes "feedId"))),
      at_least_one-IsPage (parse_int (parameter_or (get (codes "page")) (codes "1"))),
      at_most_100-IsPageSize (parse_int (parameter_or (get (codes "pageSize")) (codes "20"))),
    )

-- Whatever the parameters of a request are, a search is called only with a trimmed line that is not
-- empty and with identifiers of feeds that are not empty, from a page that is at least the first
-- and for one to a hundred results, where these two are numbers.
pub search_call-IsLimited : (get : (name : Text) → Option Text) → IsLimited (search_call get)
unfolding search_call
search_call-IsLimited get =
    call_for-IsLimited get (trimmed (get (codes "q"))) (trimmed-HasText (get (codes "q")))
