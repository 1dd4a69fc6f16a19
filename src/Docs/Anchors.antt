-- ===== src/Docs/Anchors.antt =====
-- The anchors that the slugger gives to the headings of a document.
use podlog.Base.{
  text_eq→eq, ℕ, ◌+◌, ◌≡◌, refl, sym, ap, ◌∙◌, List, [], ◌∷◌, Text, text_eq, if◌then◌else◌,
  Bool-cases, inl, inr,
}
use podlog.Base.Assoc.{lookup, set_key, lookup-set_key}
use podlog.Docs.{base_of, count_of, numbered, unique_slugs}

abbrev pub occurrences : Text → List Text → ℕ
occurrences base [] = 0
occurrences base (b ∷ seen) =
    if text_eq b base then occurrences base seen + 1 else occurrences base seen

count_of-set_key :
    (key base : Text) (n : ℕ) (m : List (Text × ℕ)) (seen : List Text)
    → count_of (lookup base m) ≡ occurrences base seen
    → count_of (lookup key m) ≡ n
    → count_of (lookup base (set_key key (n + 1) m)) ≡ occurrences base (key ∷ seen)
count_of-set_key key base n m seen h k = elim (Bool-cases (text_eq key base)) [
  | inl e ↦
      rw (lookup-set_key key base (n + 1) m, e)
        (ap (λ c. c + 1) (sym k ∙ (ap (λ b. count_of (lookup b m)) (text_eq→eq key base e) ∙ h)))
  | inr e ↦ rw (lookup-set_key key base (n + 1) m, e) h
]

module _ (lower : Text → Text) (show : ℕ → Text) where
  -- Each heading's slug from the bases of the headings in front of it.
  pub slugs_after : (seen : List Text) → List Text → List Text
  slugs_after seen [] = []
  slugs_after seen (heading ∷ headings) =
      numbered lower show (base_of lower show heading)
        (occurrences (base_of lower show heading) seen)
      ∷ slugs_after (base_of lower show heading ∷ seen) headings

  unique_slugs-after :
      (headings : List Text) (counts : List (Text × ℕ)) (seen : List Text)
      → ((base : Text) → count_of (lookup base counts) ≡ occurrences base seen)
      → unique_slugs lower show counts headings ≡ slugs_after seen headings
  unfolding unique_slugs slugs_after
  unique_slugs-after [] counts seen h = refl
  unique_slugs-after (heading ∷ headings) counts seen h =
      ap
        (◌∷◌ (
          numbered lower show (base_of lower show heading)
            (count_of (lookup (base_of lower show heading) counts))))
        (unique_slugs-after headings _ (base_of lower show heading ∷ seen)
          (λ base. count_of-set_key (base_of lower show heading) base _ counts seen (h base) refl))
      ∙ ap
          (λ n.
            numbered lower show (base_of lower show heading) n
            ∷ slugs_after (base_of lower show heading ∷ seen) headings)
          (h (base_of lower show heading))

  -- The headings of a document get as their anchors their bases, each followed by the number of
  -- headings in front with the same base where there are any.
  pub unique_slugs-numbered :
      (headings : List Text) → unique_slugs lower show [] headings ≡ slugs_after [] headings
  unique_slugs-numbered headings = unique_slugs-after headings [] [] (λ base. refl)
