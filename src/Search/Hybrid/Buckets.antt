-- ===== src/Search/Hybrid/Buckets.antt =====
-- One result for each bucket, and a bucket for each row.
use podlog.Base.{
  ℕ, ◌+◌, ◌≡◌, refl, Bool, ◌||◌, List, [], ◌∷◌, arith, Text, text_eq, any, Option-cases, inl, inr,
}
use podlog.Base.Assoc.{lookup, set_key, keys, IsDistinct, set_key-IsDistinct, any-key-set_key}
use podlog.Number.{Number}
use podlog.Search.Hybrid.{
  Row, Merged, row_key, fts_entry, merge_fts, vec_round, merge_vec, merge_rows,
}

module _ (N : Number) where
  merge_fts-IsDistinct :
      (rrf_k i : ℕ) (rows : List (Row N)) (m : Merged N)
      → IsDistinct (keys m)
      → IsDistinct (keys (merge_fts N rrf_k i rows m))
  unfolding merge_fts
  merge_fts-IsDistinct rrf_k i [] m d = d
  merge_fts-IsDistinct rrf_k i (row ∷ rows) m d =
      merge_fts-IsDistinct rrf_k (i + 1) rows _ (set_key-IsDistinct (row_key N row) _ m d)

  vec_round-IsDistinct :
      (rrf_k i : ℕ) (row : Row N) (m : Merged N)
      → IsDistinct (keys m)
      → IsDistinct (keys (vec_round N rrf_k i row m))
  unfolding vec_round
  vec_round-IsDistinct rrf_k i row m d = elim (Option-cases (lookup (row_key N row) m)) [
    | inl e ↦ rw (e, vec_round) (set_key-IsDistinct (row_key N row) _ m d)
    | inr (v, e) ↦ rw (e, vec_round) (set_key-IsDistinct (row_key N row) _ m d)
  ]

  merge_vec-IsDistinct :
      (rrf_k i : ℕ) (rows : List (Row N)) (m : Merged N)
      → IsDistinct (keys m)
      → IsDistinct (keys (merge_vec N rrf_k i rows m))
  unfolding merge_vec
  merge_vec-IsDistinct rrf_k i [] m d = d
  merge_vec-IsDistinct rrf_k i (row ∷ rows) m d =
      merge_vec-IsDistinct rrf_k (i + 1) rows _ (vec_round-IsDistinct rrf_k i row m d)

  abbrev pub has_bucket : Text → List (Row N) → Bool
  has_bucket q = any (λ row. text_eq (row_key N row) q)

  abbrev has_key : Text → Merged N → Bool
  has_key q m = any (λ j. text_eq j q) (keys m)

  merge_fts-keys :
      (q : Text) (rrf_k i : ℕ) (rows : List (Row N)) (m : Merged N)
      → has_key q (merge_fts N rrf_k i rows m) ≡ (has_bucket q rows || has_key q m)
  unfolding merge_fts
  merge_fts-keys q rrf_k i [] m = refl
  merge_fts-keys q rrf_k i (row ∷ rows) m = ground (
    arith,
    merge_fts-keys q rrf_k (i + 1) rows (set_key (row_key N row) (fts_entry N rrf_k i row) m),
    any-key-set_key q (row_key N row) (fts_entry N rrf_k i row) m,
  )

  vec_round-keys :
      (q : Text) (rrf_k i : ℕ) (row : Row N) (m : Merged N)
      → has_key q (vec_round N rrf_k i row m) ≡ (text_eq (row_key N row) q || has_key q m)
  unfolding vec_round
  vec_round-keys q rrf_k i row m = elim (Option-cases (lookup (row_key N row) m)) [
    | inl e ↦ rw (e, vec_round) (any-key-set_key q (row_key N row) _ m)
    | inr (v, e) ↦ rw (e, vec_round) (any-key-set_key q (row_key N row) _ m)
  ]

  merge_vec-keys :
      (q : Text) (rrf_k i : ℕ) (rows : List (Row N)) (m : Merged N)
      → has_key q (merge_vec N rrf_k i rows m) ≡ (has_bucket q rows || has_key q m)
  unfolding merge_vec
  merge_vec-keys q rrf_k i [] m = refl
  merge_vec-keys q rrf_k i (row ∷ rows) m = ground (
    arith,
    merge_vec-keys q rrf_k (i + 1) rows (vec_round N rrf_k i row m),
    vec_round-keys q rrf_k i row m,
  )

  -- The merged map has no bucket twice, and has exactly the buckets of the rows of both searches.
  pub merge_rows-buckets :
      (rrf_k : ℕ) (fts_rows vec_rows : List (Row N))
      → IsDistinct (keys (merge_rows N rrf_k fts_rows vec_rows))
        × ((q : Text)
            → any (λ j. text_eq j q) (keys (merge_rows N rrf_k fts_rows vec_rows))
              ≡ (has_bucket q vec_rows || has_bucket q fts_rows))
  unfolding merge_rows
  merge_rows-buckets rrf_k fts_rows vec_rows = (
    merge_vec-IsDistinct rrf_k 0 vec_rows _ (merge_fts-IsDistinct rrf_k 0 fts_rows [] tt),
    λ q. ground (
      arith,
      merge_vec-keys q rrf_k 0 vec_rows (merge_fts N rrf_k 0 fts_rows []),
      merge_fts-keys q rrf_k 0 fts_rows [],
    ),
  )
