-- ===== src/Docs/Hits.antt =====
-- What the search box of the documentation finds.
use mathlib.Core.List.{Perm}
use podlog.Base.{
  ◌≡◌, refl, Bool, false, ◌||◌, List, [], ◌∷◌, map, keep, Text, includes, index_from, is_empty,
  trim, Option-cases, inl, inr, arith,
}
use podlog.Base.Sort.{sort-perm}
use podlog.Docs.{DocSection, hit_before, hits_of, search_index}

module _ (lower : Text → Text) (locale_before : Text → Text → Bool) where
  abbrev pub mentions : Text → DocSection → Bool
  mentions q section =
      includes (lower section.section_title) q || includes (lower section.content) q

  sections-hits_of :
      (q : Text) (index : List DocSection)
      → map (λ hit. hit.section) (hits_of lower locale_before q index) ≡ keep (mentions q) index
  unfolding hits_of
  sections-hits_of q [] = refl
  sections-hits_of q (section ∷ index) =
      elim (Option-cases (index_from 0 q (lower section.section_title))) [
        | inr (i, e) ↦ ground (arith, e, sections-hits_of q index)
        | inl e ↦ elim (Option-cases (index_from 0 q (lower section.content))) [
          | inr (i, k) ↦ ground (arith, e, k, sections-hits_of q index)
          | inl k ↦ ground (arith, e, k, sections-hits_of q index)
        ]
      ]

  -- A search that is not blank finds each section whose heading or text contains it, in lower
  -- case, exactly once, and sorting its hits loses none.
  pub search_index-Perm :
      (query : Text) (index : List DocSection)
      → is_empty (lower (trim query)) ≡ false
      → Perm
          (search_index lower locale_before query index)
          (hits_of lower locale_before (lower (trim query)) index)
        × (map (λ hit. hit.section) (hits_of lower locale_before (lower (trim query)) index)
            ≡ keep (mentions (lower (trim query))) index)
  unfolding search_index
  search_index-Perm query index h = (
    rw h (sort-perm (hit_before lower locale_before) _),
    sections-hits_of (lower (trim query)) index,
  )
