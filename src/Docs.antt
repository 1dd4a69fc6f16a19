-- ===== src/Docs.antt =====
-- apps/web/src/lib/docs-search.ts and docs-slug.ts: the sections of the documentation, their
-- anchors and the search box over them. `lower` is `toLowerCase`, and `locale_before a b` says that
-- `a.localeCompare(b)` is negative; `show` is `String` of a whole number.
pub mod Hits
pub mod Anchors
pub mod Retrieval
pub mod Sections
mod Tests
use podlog.Base.{
  ℕ, suc, ◌+◌, Bool, true, false, not, ◌&&◌, ◌||◌, Option, none, some, List, [], ◌∷◌, ◌++◌, Text,
  codes, text_eq, leb, ltb, ◌==◌, if◌then◌else◌, is_space, is_empty, trim, index_from,
}
use podlog.Base.Assoc.{lookup, set_key}
use podlog.Base.Digits.{is_digit}
use podlog.Base.Sort.{sort}

pub data DocSource : Type 0 where
  guide reference prd : DocSource

pub record DocSection : Type 0 where
  pub doc_slug : Text
  pub doc_title : Text
  pub section_id : Text
  pub section_title : Text
  -- 0, 2 or 3.
  pub level : ℕ
  pub source : DocSource
  pub repo_path : Text
  pub content : Text

pub data MatchedIn : Type 0 where
  title content : MatchedIn

pub record SearchHit : Type 0 where
  pub section : DocSection
  pub matched_in : MatchedIn
  pub match_index : ℕ

-- `a.localeCompare(b)` where the texts differ, and otherwise the next comparison.
abbrev pub locale_or : (Text → Text → Bool) → Text → Text → Bool → Bool
locale_or locale_before a b otherwise = if text_eq a b then otherwise else locale_before a b

module _ (lower : Text → Text) (locale_before : Text → Text → Bool) where
  abbrev same_tier_before : SearchHit → SearchHit → Bool
  same_tier_before a b =
      if a.match_index == b.match_index
      then locale_or locale_before a.section.doc_slug b.section.doc_slug
          (locale_before a.section.section_id b.section.section_id)
      else ltb a.match_index b.match_index

  abbrev tier_before : MatchedIn → MatchedIn → Bool → Bool
  tier_before title title within = within
  tier_before title content within = true
  tier_before content title within = false
  tier_before content content within = within

  -- The comparison of two hits is negative.
  abbrev pub hit_before : SearchHit → SearchHit → Bool
  hit_before a b = tier_before a.matched_in b.matched_in (same_tier_before a b)

  abbrev pub hit_of : Text → DocSection → Option SearchHit
  hit_of q section = elim (index_from 0 q (lower section.section_title)) [
    | some i ↦ some (record { section = section; matched_in = title; match_index = i })
    | none ↦ elim (index_from 0 q (lower section.content)) [
      | some i ↦ some (record { section = section; matched_in = content; match_index = i })
      | none ↦ none
    ]
  ]

  unfoldable pub hits_of : Text → List DocSection → List SearchHit
  hits_of q [] = []
  hits_of q (section ∷ index) = elim (hit_of q section) [
    | some hit ↦ hit ∷ hits_of q index
    | none ↦ hits_of q index
  ]

  unfoldable pub search_index : (query : Text) → List DocSection → List SearchHit
  search_index query index =
      let q = lower (trim query) in if is_empty q then [] else sort hit_before (hits_of q index)

-- `\w`
abbrev is_word : ℕ → Bool
is_word c = is_digit c || (leb b'A' c && leb c b'Z' || (leb b'a' c && leb c b'z' || c == b'_'))

-- `.replace(/[^\w\s-]/g, "")`
abbrev strip_marks : Text → Text
strip_marks [] = []
strip_marks (c ∷ s) =
    if is_word c || (is_space c || c == b'-') then c ∷ strip_marks s else strip_marks s

-- `.replace(/\s+/g, "-")` and then `.replace(/-+/g, "-")`: `in_run` says that a dash was just put.
abbrev dashes : (in_run : Bool) → Text → Text
dashes in_run [] = []
dashes in_run (c ∷ s) =
    if is_space c || c == b'-'
    then if in_run then dashes true s else b'-' ∷ dashes true s
    else c ∷ dashes false s

abbrev pub count_of : Option ℕ → ℕ
count_of none = 0
count_of (some n) = n

module _ (lower : Text → Text) (show : ℕ → Text) where
  unfoldable pub slugify_heading : Text → Text
  unfolding is_digit is_space trim
  slugify_heading heading = dashes false (strip_marks (trim (lower heading)))

  unfoldable pub base_of : Text → Text
  base_of heading =
      if is_empty (slugify_heading heading) then codes "section" else slugify_heading heading

  abbrev pub numbered : Text → ℕ → Text
  numbered base count = if count == 0 then base else base ++ (b'-' ∷ show count)

  -- The slugs of a stream of headings, from the counts of the slugger.
  unfoldable pub unique_slugs : List (Text × ℕ) → List Text → List Text
  unique_slugs slug_counts [] = []
  unique_slugs slug_counts (heading ∷ headings) =
      let base = base_of heading in
      let count = count_of (lookup base slug_counts) in
      numbered base count ∷ unique_slugs (set_key base (count + 1) slug_counts) headings
