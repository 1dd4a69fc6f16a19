-- ===== src/Docs/Retrieval/Budget.antt =====
-- The limits on the sections that go to the model.
use podlog.Base.{
  ℕ, ◌+◌, ◌*◌, ◌≤◌, ◌≡◌, refl, ◌∙◌, Bool, true, not, ◌||◌, List, [], ◌∷◌, Text, keep, length, leb,
  ltb, arith, Bool-cases, inl, inr, is_empty,
}
use podlog.Number.{Number}
use podlog.Docs.{DocSection}
use podlog.Docs.Retrieval.{pick, select_sections, terms, ranked_sections, chars_per_token}

abbrev pub total_chars : List DocSection → ℕ
total_chars [] = 0
total_chars (section ∷ rest) = length section.content + total_chars rest

module _ (max_sections max_chars : ℕ) where
  pick-within :
      (sections : List DocSection) (count chars : ℕ)
      → count ≤ max_sections
      → chars ≤ max_chars
      → (count + length (pick max_sections max_chars count chars sections) ≤ max_sections)
        × (chars + total_chars (pick max_sections max_chars count chars sections) ≤ max_chars)
  unfolding pick
  pick-within [] count chars a b = (omega arith, omega arith)
  pick-within (section ∷ rest) count chars a b = elim (Bool-cases (leb max_sections count)) [
    | inl full ↦ rw full (omega arith, omega arith)
    | inr room ↦ elim (Bool-cases (ltb max_chars (chars + length section.content))) [
      | inl large ↦ rw (room, large) (pick-within rest count chars a b)
      | inr fits ↦
          let c : count + 1 ≤ max_sections = ground arith in
          let d : chars + length section.content ≤ max_chars = ground arith in
          let (e, f) = pick-within rest (count + 1) (chars + length section.content) c d in
          rw (room, fits) (omega arith, omega arith)
    ]
  ]

  -- The section fits into the budget by itself.
  abbrev pub fits_alone : DocSection → Bool
  fits_alone section = not (ltb max_chars (length section.content))

  pick_of_full :
      (sections : List DocSection) (count chars : ℕ)
      → leb max_sections count ≡ true
      → pick max_sections max_chars count chars sections ≡ []
  unfolding pick
  pick_of_full [] count chars h = refl
  pick_of_full (section ∷ rest) count chars h = rw h refl

  -- A section that is larger than the whole budget takes nothing from those behind it: the choice
  -- is the same as without it.
  pick-skip :
      (sections : List DocSection) (count chars : ℕ)
      → pick max_sections max_chars count chars (keep fits_alone sections)
        ≡ pick max_sections max_chars count chars sections
  unfolding pick
  pick-skip [] count chars = refl
  pick-skip (section ∷ rest) count chars =
      elim (Bool-cases (ltb max_chars (length section.content))) [
        | inl large ↦
            let wide : ltb max_chars (chars + length section.content) ≡ true = ground arith in
            elim (Bool-cases (leb max_sections count)) [
              | inl full ↦
                  rw (large, full) (pick-skip rest count chars ∙ pick_of_full rest count chars full)
              | inr room ↦ rw (large, room, wide) (pick-skip rest count chars)
            ]
        | inr fits ↦
            rw
              (
                fits,
                pick-skip rest count chars,
                pick-skip rest (count + 1) (chars + length section.content),
              )
              refl
      ]

-- The sections that go to the model are at most as many as allowed, and their texts together stay
-- within four units for each token of the budget.
pub select_sections-within :
    (N : Number) (lower : Text → Text) (locale_before : Text → Text → Bool) (question : Text)
    (index : List DocSection) (max_sections max_tokens : ℕ)
    → let chosen = select_sections N lower locale_before question index max_sections max_tokens in
      (length chosen ≤ max_sections) × (total_chars chosen ≤ max_tokens * chars_per_token)
unfolding select_sections
select_sections-within N lower locale_before question index max_sections max_tokens =
    elim (Bool-cases (is_empty (terms N lower locale_before question) || is_empty index)) [
      | inl nothing ↦ rw nothing (omega arith, omega arith)
      | inr asked ↦
          let (e, f) =
            pick-within max_sections (max_tokens * chars_per_token)
              (ranked_sections N lower locale_before (terms N lower locale_before question) index) 0
              0 (omega arith) (omega arith) in
          rw asked (omega arith, omega arith)
    ]
