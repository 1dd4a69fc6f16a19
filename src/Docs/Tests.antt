-- ===== src/Docs/Tests.antt =====
-- The documentation's search on concrete sections.
use mathlib.Core.List.{Perm}
use podlog.Base.{
  ◌++◌, All, ℕ, ◌+◌, ◌*◌, ◌≤◌, ◌≡◌, refl, Bool, true, false, List, [], ◌∷◌, Text, codes, keep, map,
  is_empty, is_space, trim, ltb, length,
}
use podlog.Number.{Number}
use podlog.Docs.{DocSection, guide, search_index, hits_of, unique_slugs, base_of, slugify_heading}
use podlog.Docs.Sections.{lines_of, match_heading, split_doc_into_sections}
use podlog.Docs.Sections.Headings.{headings, titled, split_doc_into_sections-headings}
use podlog.Docs.Hits.{search_index-Perm, mentions}
use podlog.Docs.Anchors.{unique_slugs-numbered, slugs_after}
use podlog.Docs.Retrieval.{select_sections, chars_per_token}
use podlog.Docs.Retrieval.Budget.{total_chars, select_sections-within}

abbrev lower : Text → Text
lower s = s

abbrev locale_before : Text → Text → Bool
locale_before [] [] = false
locale_before [] (b ∷ t) = true
locale_before (a ∷ s) [] = false
locale_before (a ∷ s) (b ∷ t) = ltb a b

-- One digit is enough here.
abbrev show : ℕ → Text
show n = (n + 48) ∷ []

abbrev section : Text → Text → DocSection
section section_title content = record {
  doc_slug = codes "08-queue";
  doc_title = codes "Queue";
  section_id = section_title;
  section_title = section_title;
  level = 2;
  source = guide;
  repo_path = [];
  content = content;
}

abbrev index : List DocSection
index =
    section (codes "retry") (codes "a failed job can be tried again")
    ∷ section (codes "stages") (codes "the stages of a job")
    ∷ section (codes "other") (codes "none")
    ∷ []

query-is_empty : is_empty (lower (trim (codes " job"))) ≡ false
unfolding is_space trim
query-is_empty = refl

search_index-Perm_example :
    Perm
      (search_index lower locale_before (codes " job") index)
      (hits_of lower locale_before (lower (trim (codes " job"))) index)
    × (map (λ hit. hit.section) (hits_of lower locale_before (lower (trim (codes " job"))) index)
        ≡ keep (mentions lower locale_before (lower (trim (codes " job")))) index)
search_index-Perm_example =
    search_index-Perm lower locale_before (codes " job") index query-is_empty

abbrev repeated : List Text
repeated = codes "a" ∷ codes "a" ∷ codes "a-1" ∷ []

unique_slugs-numbered_example :
    unique_slugs lower show [] repeated ≡ slugs_after lower show [] repeated
unique_slugs-numbered_example = unique_slugs-numbered lower show repeated

-- The slug of the third heading is that of the second.
second_and_third : unique_slugs lower show [] repeated ≡ codes "a" ∷ codes "a-1" ∷ codes "a-1" ∷ []
unfolding unique_slugs base_of slugify_heading
second_and_third = refl

abbrev whole : Number
whole = record {
  Num = ℕ;
  nat = λ n. n;
  parse_float = λ s. 0;
  show = show;
  floor_div = λ x k. x;
  recip = λ n. 0;
  add = λ x y. x + y;
  lt = ltb;
  mul = λ x y. x * y;
  div = λ x y. x;
  log = λ x. x;
}

select_sections-within_example :
    let chosen = select_sections whole lower locale_before (codes "failed job") index 2 8 in
    (length chosen ≤ 2) × (total_chars chosen ≤ 8 * chars_per_token)
select_sections-within_example =
    select_sections-within whole lower locale_before (codes "failed job") index 2 8

-- A text in front, a heading with a text, and a deeper one without.
abbrev markdown : Text
markdown = codes "intro" ++ (10 ∷ (codes "## a" ++ (10 ∷ (codes "text" ++ (10 ∷ codes "### b")))))

markdown-headings : headings (lines_of [] markdown) ≡ codes "a" ∷ codes "b" ∷ []
unfolding headings match_heading trim is_space
markdown-headings = refl

headings-are_full : All (λ heading. is_empty heading ≡ false) (headings (lines_of [] markdown))
headings-are_full = rw markdown-headings (refl, (refl, tt))

split_doc_into_sections-headings_example :
    let sections = titled (
      split_doc_into_sections lower show
        (codes "08-queue")
        (codes "Queue")
        markdown
        guide
        (codes "docs/guide/08-queue.md")) in
    (map (λ s. s.section_id) sections
      ≡ unique_slugs lower show [] (headings (lines_of [] markdown)))
    × (map (λ s. s.section_title) sections ≡ headings (lines_of [] markdown))
split_doc_into_sections-headings_example =
    split_doc_into_sections-headings lower show (codes "08-queue") (codes "Queue") markdown guide
      (codes "docs/guide/08-queue.md") headings-are_full
