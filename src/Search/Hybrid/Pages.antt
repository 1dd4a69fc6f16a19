-- ===== src/Search/Hybrid/Pages.antt =====
-- The pages that are cut from the ranked results.
use mathlib.Core.List.{Perm}
use mathlib.Core.Option
use native.Mathlib.Nat.{zero-add, suc-add}
use podlog.Base.{
  ℕ, zero, suc, Bool, not, ◌&&◌, All, keep, ◌+◌, ◌-◌, ◌*◌, ◌≤◌, max, ◌≡◌, refl, ap, true, false,
  Option, none, some, List, [], ◌∷◌, ◌++◌, arith, length, length-take-le, take, drop, slice,
}
use podlog.Base.Assoc.{values}
use podlog.Base.Sort.{sort-perm, IsSorted, sort-IsSorted, keep-sort}
use podlog.Number.{Number}
use podlog.Search.Hybrid.{
  Row, MergedEntry, outranks, merge_rows, ranked, merge_hybrid_search_results,
}

take-nil {ℓ} : {A : Type ℓ} (n : ℕ) → take {A = A} n [] ≡ []
take-nil zero = refl
take-nil (suc n) = refl

slice-length-le {ℓ} :
    {A : Type ℓ} (o o' n : ℕ) (xs : List A) → o' ≡ o → length (slice o' (o' + n) xs) ≤ n
slice-length-le o o' n xs e = omega (arith, length-take-le (o' + n - o') (drop o' xs))

take-add {ℓ} :
    {A : Type ℓ} (m n : ℕ) (xs : List A) → take (m + n) xs ≡ take m xs ++ take n (drop m xs)
take-add zero n xs = rw zero-add
take-add (suc m) n [] = rw (suc-add, take-nil n) refl
take-add (suc m) n (x ∷ xs) = rw suc-add (ap (◌∷◌ x) (take-add m n xs))

both_false : {p q : Bool} → (not p && not q) ≡ true → (p ≡ false) × (q ≡ false)
both_false {p} {q} h = ground arith

module _ (N : Number) where
  -- No entry's score is below that of an entry behind it.
  abbrev pub IsDescending : List (MergedEntry N) → Type 0
  IsDescending [] = Unit
  IsDescending (x ∷ xs) =
      All {A = MergedEntry N} (λ (y : MergedEntry N). N.lt x.rrf_score y.rrf_score ≡ false) xs
      × IsDescending xs

  -- The entries that score the same as `s`.
  abbrev pub ties_with : N.Num → MergedEntry N → Bool
  ties_with s e = not (N.lt e.rrf_score s) && not (N.lt s e.rrf_score)

  IsSorted-IsDescending : (xs : List (MergedEntry N)) → IsSorted (outranks N) xs → IsDescending xs
  IsSorted-IsDescending [] h = tt
  IsSorted-IsDescending (x ∷ xs) (p, h) = (p, IsSorted-IsDescending xs h)

  -- The ranking holds the merged entries, all of them and each once; no entry stands in front of
  -- one with a higher score; and the entries of one score keep the order in which they were
  -- merged, where the comparison of scores is a weak order.
  pub ranked-IsDescending :
      ((a b : N.Num) → N.lt a b ≡ true → N.lt b a ≡ false)
      → ((a b c : N.Num) → N.lt a b ≡ false → N.lt b c ≡ false → N.lt a c ≡ false)
      → (rrf_k : ℕ) (fts_rows vec_rows : List (Row N)) (score : N.Num)
      → let merged = values (merge_rows N rrf_k fts_rows vec_rows) in
        let ranking = ranked N rrf_k fts_rows vec_rows in
        Perm ranking merged
        × IsDescending ranking
        × (keep (ties_with score) ranking ≡ keep (ties_with score) merged)
  unfolding ranked
  ranked-IsDescending asymmetric transitive rrf_k fts_rows vec_rows score = (
    sort-perm (outranks N) _,
    IsSorted-IsDescending _ (
        sort-IsSorted (outranks N) (λ a b h. asymmetric _ _ h) (λ a b c h k. transitive _ _ _ h k)
          _),
    keep-sort (outranks N) (ties_with score)
        (λ a b h k. transitive _ score _ (both_false k).0 (both_false h).1) _,
  )

  module _ (rrf_k : ℕ) (fts_rows vec_rows : List (Row N)) (fts_total : Option ℕ) where
    -- A page holds at most `page_size` results; the pages up to the `n`th, one behind the other,
    -- are the first `n * page_size` entries of the ranking; and the total is the larger of the
    -- full-text count and the number of merged entries, or unknown where no count was made.
    pub merge_hybrid_search_results-pages :
        (n page_size : ℕ)
        → let page =
            merge_hybrid_search_results N fts_rows vec_rows (n + 1) page_size fts_total rrf_k in
          let sorted = ranked N rrf_k fts_rows vec_rows in
          (length page.results ≤ page_size)
          × (take (n * page_size + page_size) sorted ≡ take (n * page_size) sorted ++ page.results)
          × (page.total ≡ Option.map (λ t. max t (length sorted)) fts_total)
    unfolding merge_hybrid_search_results
    merge_hybrid_search_results-pages n page_size =
        let offset : (n + 1 - 1) * page_size ≡ n * page_size =
          ap (λ k. k * page_size) (omega arith) in
        let width : n * page_size + page_size - n * page_size ≡ page_size = omega arith in
        (
          slice-length-le (n * page_size) _ page_size _ offset,
          rw (offset, width) (take-add (n * page_size) page_size _),
          total fts_total,
        )
      where
        total :
            (t : Option ℕ)
            → (merge_hybrid_search_results N fts_rows vec_rows (n + 1) page_size t rrf_k).total
              ≡ Option.map (λ t. max t (length (ranked N rrf_k fts_rows vec_rows))) t
        total none = refl
        total (some t) = refl
