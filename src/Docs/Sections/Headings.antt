-- ===== src/Docs/Sections/Headings.antt =====
-- The sections of a document against its headings.
use mathlib.Core.List.{append-nil}
use podlog.Base.{
  ℕ, ◌+◌, ◌≡◌, refl, ap, ◌∙◌, false, not, none, some, List, [], ◌∷◌, ◌++◌, map, keep, All, Text,
  if◌then◌else◌, is_empty, trim, arith, Option-cases, Bool-cases, inl, inr,
}
use podlog.Base.Assoc.{lookup, set_key}
use podlog.Docs.{DocSection, DocSource, base_of, count_of, numbered, unique_slugs}
use podlog.Docs.Sections.{
  match_heading, lines_of, flush, add_line, section_with, split_from, split_doc_into_sections,
}

-- The headings among the lines, in their order.
unfoldable pub headings : List Text → List Text
headings [] = []
headings (line ∷ lines) = elim (match_heading line) [
  | some (level, body) ↦ trim body ∷ headings lines
  | none ↦ headings lines
]

abbrev pub titled : List DocSection → List DocSection
titled = keep (λ section. not (is_empty section.section_title))

abbrev own : (DocSection → Text) → DocSection → List Text
own f section = if is_empty section.section_title then [] else f section ∷ []

titled-flush :
    (section : DocSection) (rest : List DocSection)
    → (map (λ s. s.section_id) (titled (flush section ++ rest))
        ≡ own (λ s. s.section_id) section ++ map (λ s. s.section_id) (titled rest))
      × (map (λ s. s.section_title) (titled (flush section ++ rest))
          ≡ own (λ s. s.section_title) section ++ map (λ s. s.section_title) (titled rest))
unfolding flush
titled-flush section rest = elim (Bool-cases (is_empty section.section_title)) [
  | inl bare ↦ elim (Bool-cases (is_empty (trim section.content))) [
    | inl blank ↦ ground arith
    | inr full ↦ ground arith
  ]
  | inr named ↦ elim (Bool-cases (is_empty (trim section.content))) [
    | inl blank ↦ ground arith
    | inr full ↦ ground arith
  ]
]

headings-plain :
    (line : Text) (lines : List Text)
    → match_heading line ≡ none
    → headings (line ∷ lines) ≡ headings lines
unfolding headings
headings-plain line lines e = rw (headings, e) refl

headings-heading :
    (line : Text) (lines : List Text) (level : ℕ) (body : Text)
    → match_heading line ≡ some (level, body)
    → headings (line ∷ lines) ≡ trim body ∷ headings lines
unfolding headings
headings-heading line lines level body e = rw (headings, e) refl

module _ (lower : Text → Text) (show : ℕ → Text) where
  split_from-plain :
      (line : Text) (lines : List Text) (slug_counts : List (Text × ℕ)) (current : DocSection)
      → match_heading line ≡ none
      → split_from lower show slug_counts current (line ∷ lines)
        ≡ split_from lower show slug_counts (add_line current line) lines
  unfolding split_from
  split_from-plain line lines slug_counts current e = rw (split_from, e) refl

  abbrev counts_after : Text → List (Text × ℕ) → List (Text × ℕ)
  counts_after text slug_counts =
      set_key (base_of lower show text)
        (count_of (lookup (base_of lower show text) slug_counts) + 1) slug_counts

  abbrev begun : DocSection → Text → ℕ → List (Text × ℕ) → DocSection
  begun current text level slug_counts =
      section_with current
        (numbered lower show (base_of lower show text)
          (count_of (lookup (base_of lower show text) slug_counts)))
        text level

  split_from-heading :
      (line : Text) (lines : List Text) (slug_counts : List (Text × ℕ)) (current : DocSection)
      (level : ℕ) (body : Text)
      → match_heading line ≡ some (level, body)
      → split_from lower show slug_counts current (line ∷ lines)
        ≡ flush current
          ++ split_from lower show
              (counts_after (trim body) slug_counts)
              (begun current (trim body) level slug_counts)
              lines
  unfolding split_from
  split_from-heading line lines slug_counts current level body e = rw (split_from, e) refl

  abbrev IsTitled : List (Text × ℕ) → DocSection → List Text → List DocSection → Type 0
  IsTitled slug_counts current hs sections =
      (map (λ s. s.section_id) (titled sections)
        ≡ own (λ s. s.section_id) current ++ unique_slugs lower show slug_counts hs)
      × (map (λ s. s.section_title) (titled sections) ≡ own (λ s. s.section_title) current ++ hs)

  IsTitled-flush :
      (slug_counts : List (Text × ℕ)) (current : DocSection) (level : ℕ) (text : Text)
      (hs : List Text) (sections : List DocSection)
      → is_empty text ≡ false
      → IsTitled (counts_after text slug_counts) (begun current text level slug_counts) hs sections
      → IsTitled slug_counts current (text ∷ hs) (flush current ++ sections)
  unfolding unique_slugs
  IsTitled-flush slug_counts current level text hs sections named (a, b) =
      let (p, q) = titled-flush current sections in
      (
        p ∙ ap (λ x. own (λ s. s.section_id) current ++ x) (rw named at a),
        q ∙ ap (λ x. own (λ s. s.section_title) current ++ x) (rw named at b),
      )

  IsTitled-end :
      (slug_counts : List (Text × ℕ)) (current : DocSection)
      → IsTitled slug_counts current (headings []) (split_from lower show slug_counts current [])
  unfolding split_from headings unique_slugs
  IsTitled-end slug_counts current = rw (append-nil (flush current)) at (titled-flush current [])

  split_from-IsTitled :
      (lines : List Text) (slug_counts : List (Text × ℕ)) (current : DocSection)
      → All (λ heading. is_empty heading ≡ false) (headings lines)
      → IsTitled slug_counts current
          (headings lines)
          (split_from lower show slug_counts current lines)
  split_from-IsTitled [] slug_counts current h = IsTitled-end slug_counts current
  split_from-IsTitled (line ∷ lines) slug_counts current h =
      elim (Option-cases (match_heading line)) [
        | inl e ↦
            rw (headings-plain line lines e, split_from-plain line lines slug_counts current e)
              (split_from-IsTitled lines slug_counts (add_line current line)
                (rw (headings-plain line lines e) at h))
        | inr ((level, body), e) ↦
            let (named, rest) = rw (headings-heading line lines level body e) at h in
            rw
              (
                headings-heading line lines level body e,
                split_from-heading line lines slug_counts current level body e,
              )
              (IsTitled-flush slug_counts current level (trim body) (headings lines) _ named (
                split_from-IsTitled lines (counts_after (trim body) slug_counts)
                  (begun current (trim body) level slug_counts) rest))
      ]

  -- Where no heading of a document is blank, the sections with a title have as their titles the
  -- headings in their order, and as their anchors the slugs that the slugger gives to the headings.
  pub split_doc_into_sections-headings :
      (doc_slug doc_title markdown : Text) (source : DocSource) (repo_path : Text)
      → All (λ heading. is_empty heading ≡ false) (headings (lines_of [] markdown))
      → let sections =
          titled
            (split_doc_into_sections lower show doc_slug doc_title markdown source repo_path) in
        (map (λ s. s.section_id) sections
          ≡ unique_slugs lower show [] (headings (lines_of [] markdown)))
        × (map (λ s. s.section_title) sections ≡ headings (lines_of [] markdown))
  unfolding split_doc_into_sections
  split_doc_into_sections-headings doc_slug doc_title markdown source repo_path h =
      split_from-IsTitled (lines_of [] markdown) [] _ h
