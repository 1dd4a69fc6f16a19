-- ===== src/Search/Hybrid/Scores.antt =====
-- The score that the merge gives to a bucket, against a direct description: the rank of the
-- bucket's last full-text row, and one summand more for each of its vector rows.
use mathlib.Core.Option
use podlog.Base.{
  ℕ, ◌+◌, ◌≡◌, refl, ap, sym, ◌∙◌, text_eq→eq, true, Option, none, some, List, [], ◌∷◌, Text,
  text_eq, Option-cases, Bool-cases, inl, inr, if◌then◌else◌,
}
use podlog.Base.Assoc.{lookup, lookup-set_key}
use podlog.Number.{Number}
use podlog.Search.Hybrid.{
  Row, MergedEntry, Merged, row_key, fts_entry, vec_entry, merge_fts, vec_round, merge_vec,
  merge_rows,
}

module _ (N : Number) (q : Text) where
  -- The entry of the bucket's last row, counted from index `i`; `old` where it has none.
  pub last_entry : (rrf_k i : ℕ) → List (Row N) → Option (MergedEntry N) → Option (MergedEntry N)
  last_entry rrf_k i [] old = old
  last_entry rrf_k i (row ∷ rows) old =
      last_entry rrf_k (i + 1) rows
        (if text_eq (row_key N row) q then some (fts_entry N rrf_k i row) else old)

  lookup-merge_fts :
      (rrf_k i : ℕ) (rows : List (Row N)) (m : Merged N)
      → lookup q (merge_fts N rrf_k i rows m) ≡ last_entry rrf_k i rows (lookup q m)
  unfolding merge_fts last_entry
  lookup-merge_fts rrf_k i [] m = refl
  lookup-merge_fts rrf_k i (row ∷ rows) m =
      lookup-merge_fts rrf_k (i + 1) rows _
      ∙ ap (last_entry rrf_k (i + 1) rows) (lookup-set_key (row_key N row) q _ m)

  -- One vector row: its reciprocal rank is the score, or is added to it.
  abbrev pub add_score : Option N.Num → N.Num → Option N.Num
  add_score none x = some x
  add_score (some s) x = some (N.add s x)

  pub vec_score : (rrf_k i : ℕ) → List (Row N) → Option N.Num → Option N.Num
  vec_score rrf_k i [] s = s
  vec_score rrf_k i (row ∷ rows) s =
      vec_score rrf_k (i + 1) rows
        (if text_eq (row_key N row) q then add_score s (N.recip (rrf_k + i + 1)) else s)

  abbrev score_of : Option (MergedEntry N) → Option N.Num
  score_of = Option.map (λ e. e.rrf_score)

  abbrev again : (rrf_k i : ℕ) → MergedEntry N → MergedEntry N
  again rrf_k i v = record v {
    vec_rank = some (i + 1);
    rrf_score = N.add v.rrf_score (N.recip (rrf_k + i + 1));
  }

  score-vec_round :
      (rrf_k i : ℕ) (row : Row N) (m : Merged N)
      → score_of (lookup q (vec_round N rrf_k i row m)) ≡ (
          if text_eq (row_key N row) q
          then add_score (score_of (lookup q m)) (N.recip (rrf_k + i + 1))
          else score_of (lookup q m))
  unfolding vec_round vec_entry
  score-vec_round rrf_k i row m = elim (Option-cases (lookup (row_key N row) m)) [
    | inl e ↦
        rw (e, vec_round)
          (rw (lookup-set_key (row_key N row) q (vec_entry N rrf_k i row) m) (absent e))
    | inr (v, e) ↦
        rw (e, vec_round) (rw (lookup-set_key (row_key N row) q (again rrf_k i v) m) (there v e))
  ]
    where
      found : text_eq (row_key N row) q ≡ true → lookup q m ≡ lookup (row_key N row) m
      found h = ap (λ j. lookup j m) (sym (text_eq→eq (row_key N row) q h))

      absent :
          lookup (row_key N row) m ≡ none
          → score_of
              (if text_eq (row_key N row) q then some (vec_entry N rrf_k i row) else lookup q m)
            ≡ (if text_eq (row_key N row) q
                then add_score (score_of (lookup q m)) (N.recip (rrf_k + i + 1))
                else score_of (lookup q m))
      absent e = elim (Bool-cases (text_eq (row_key N row) q)) [
        | inl h ↦ rw (h, found h, e) refl
        | inr h ↦ rw h refl
      ]

      there :
          (v : MergedEntry N)
          → lookup (row_key N row) m ≡ some v
          → score_of (if text_eq (row_key N row) q then some (again rrf_k i v) else lookup q m) ≡ (
              if text_eq (row_key N row) q
              then add_score (score_of (lookup q m)) (N.recip (rrf_k + i + 1))
              else score_of (lookup q m))
      there v e = elim (Bool-cases (text_eq (row_key N row) q)) [
        | inl h ↦ rw (h, found h, e) refl
        | inr h ↦ rw h refl
      ]

  score-merge_vec :
      (rrf_k i : ℕ) (rows : List (Row N)) (m : Merged N)
      → score_of (lookup q (merge_vec N rrf_k i rows m))
        ≡ vec_score rrf_k i rows (score_of (lookup q m))
  unfolding merge_vec vec_score
  score-merge_vec rrf_k i [] m = refl
  score-merge_vec rrf_k i (row ∷ rows) m =
      score-merge_vec rrf_k (i + 1) rows _
      ∙ ap (vec_score rrf_k (i + 1) rows) (score-vec_round rrf_k i row m)

  -- A bucket's score is that of its last full-text row, if it has one, with the reciprocal rank
  -- of each of its vector rows added in their order. An earlier full-text row of the bucket,
  -- which ranks higher, adds nothing.
  pub merge_rows-score :
      (rrf_k : ℕ) (fts_rows vec_rows : List (Row N))
      → Option.map (λ e. e.rrf_score) (lookup q (merge_rows N rrf_k fts_rows vec_rows))
        ≡ vec_score rrf_k 0 vec_rows
            (Option.map (λ e. e.rrf_score) (last_entry rrf_k 0 fts_rows none))
  unfolding merge_rows
  merge_rows-score rrf_k fts_rows vec_rows =
      score-merge_vec rrf_k 0 vec_rows _
      ∙ ap (λ o. vec_score rrf_k 0 vec_rows (score_of o)) (lookup-merge_fts rrf_k 0 fts_rows [])
