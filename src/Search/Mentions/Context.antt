-- ===== src/Search/Mentions/Context.antt =====
-- The mentions against their description: the matching turns in order, each with the turns
-- around it that do not match, up to two on each side and up to the next match.
use mathlib.Core.List.{reverse, reverse-cons}
use mathlib.Core.Path.{ap₂}
use podlog.Base.{
  ℕ, zero, suc, ◌+◌, ◌≤◌, ◌<◌, ◌≡◌, refl, sym, ◌∙◌, true, false, none, some, List, [], ◌∷◌, ◌++◌,
  map, arith, length, length-append, get_elem?, take, drop, ltb, if◌then◌else◌, Option-cases,
  Bool-cases, inl, inr, append_assoc, append-nil,
}
use podlog.Search.Pool.{TurnRow}
use podlog.Search.Mentions.{
  ContextSegment, Mention, context_size, to_context_segment, match_indices, walk_back, walk_on,
  mention_at, mentions_at, mentions_of,
}

module _ {Num : Type 0} where
  -- The rows up to the first match.
  abbrev pub unmatched : List (TurnRow Num) → List (TurnRow Num)
  unmatched [] = []
  unmatched (row ∷ rows) = if row.is_match then [] else row ∷ unmatched rows

  -- The rows in front of an index, the nearest first.
  abbrev pub rows_before : List (TurnRow Num) → ℕ → List (TurnRow Num)
  rows_before rows zero = []
  rows_before rows (suc i) = elim (get_elem? rows i) [
    | none ↦ []
    | some row ↦ row ∷ rows_before rows i
  ]

  drop-eq-cons :
      (rows : List (TurnRow Num)) (i : ℕ) (row : TurnRow Num)
      → get_elem? rows i ≡ some row
      → drop i rows ≡ row ∷ drop (suc i) rows
  drop-eq-cons [] i row h = cc
  drop-eq-cons (r ∷ rows) zero row h = ground arith
  drop-eq-cons (r ∷ rows) (suc i) row h = drop-eq-cons rows i row h

  drop-eq-nil : (rows : List (TurnRow Num)) (i : ℕ) → get_elem? rows i ≡ none → drop i rows ≡ []
  drop-eq-nil [] zero h = refl
  drop-eq-nil [] (suc i) h = refl
  drop-eq-nil (r ∷ rows) zero h = cc
  drop-eq-nil (r ∷ rows) (suc i) h = drop-eq-nil rows i h

  drop-cons :
      (rows : List (TurnRow Num)) (i : ℕ) (row : TurnRow Num) (rest : List (TurnRow Num))
      → drop i rows ≡ row ∷ rest
      → (get_elem? rows i ≡ some row) × (drop (suc i) rows ≡ rest)
  drop-cons [] zero row rest h = (cc, cc)
  drop-cons [] (suc i) row rest h = (cc, cc)
  drop-cons (r ∷ rows) zero row rest h = (cc, cc)
  drop-cons (r ∷ rows) (suc i) row rest h = drop-cons rows i row rest h

  get_elem?-lt :
      (xs : List (TurnRow Num)) (i : ℕ) (row : TurnRow Num)
      → get_elem? xs i ≡ some row
      → i < length xs
  get_elem?-lt [] i row h = cc
  get_elem?-lt (x ∷ xs) zero row h = omega arith
  get_elem?-lt (x ∷ xs) (suc i) row h = omega (arith, get_elem?-lt xs i row h)

  module _ (rows : List (TurnRow Num)) where
    full :
        (xs : List (ContextSegment Num))
        → length xs + 0 ≡ context_size
        → ltb (length xs) context_size ≡ false
    full xs h = ground arith

    room :
        (xs : List (ContextSegment Num)) (k : ℕ)
        → length xs + suc k ≡ context_size
        → ltb (length xs) context_size ≡ true
    room xs k h = ground arith

    walk_back-eq :
        (i k : ℕ) (before : List (ContextSegment Num))
        → length before + k ≡ context_size
        → walk_back rows i before
          ≡ reverse (map to_context_segment (take k (unmatched (rows_before rows i)))) ++ before
    unfolding walk_back
    walk_back-eq zero zero before h = refl
    walk_back-eq zero (suc k) before h = refl
    walk_back-eq (suc i) zero before h = rw (full before h, walk_back) refl
    walk_back-eq (suc i) (suc k) before h = elim (Option-cases (get_elem? rows i)) [
      | inl e ↦ rw (room before k h, e, walk_back, rows_before) refl
      | inr (row, e) ↦ elim (Bool-cases row.is_match) [
        | inl m ↦ rw (room before k h, e, m, walk_back, rows_before, unmatched) refl
        | inr m ↦
            rw (room before k h, e, m, walk_back, rows_before, unmatched)
              (walk_back-eq i k (to_context_segment row ∷ before) (omega arith)
                ∙ rw (reverse-cons, append_assoc) refl)
      ]
    ]

    walk_on-eq :
        (fuel i k : ℕ) (after : List (ContextSegment Num))
        → length after + k ≡ context_size
        → length rows ≤ fuel + i
        → walk_on rows fuel i after
          ≡ after ++ map to_context_segment (take k (unmatched (drop i rows)))
    unfolding walk_on
    walk_on-eq fuel i zero after h p = full_stop fuel
      where
        full_stop : (fuel : ℕ) → walk_on rows fuel i after ≡ after ++ []
        full_stop zero = sym (append-nil after)
        full_stop (suc fuel) = rw (full after h, walk_on) (sym (append-nil after))
    walk_on-eq zero i (suc k) after h p = elim (Option-cases (get_elem? rows i)) [
      | inl e ↦ rw (drop-eq-nil rows i e, unmatched) (sym (append-nil after))
      | inr (row, e) ↦ absurd (omega (arith, get_elem?-lt rows i row e))
    ]
    walk_on-eq (suc fuel) i (suc k) after h p = elim (Option-cases (get_elem? rows i)) [
      | inl e ↦
          rw (room after k h, e, walk_on, drop-eq-nil rows i e, unmatched) (sym (append-nil after))
      | inr (row, e) ↦ elim (Bool-cases row.is_match) [
        | inl m ↦
            rw (room after k h, e, walk_on, drop-eq-cons rows i row e, unmatched, m)
              (sym (append-nil after))
        | inr m ↦
            rw (room after k h, e, walk_on, drop-eq-cons rows i row e, unmatched, m)
              (walk_on-eq fuel (suc i) k (after ++ to_context_segment row ∷ [])
                  (omega (arith, length-append after (to_context_segment row ∷ []))) (omega arith)
                ∙ append_assoc after (to_context_segment row ∷ []) _)
      ]
    ]

    -- What a mention of the turn at an index should be.
    pub mention_spec : ℕ → TurnRow Num → Mention Num
    mention_spec i row = record {
      id = row.id;
      start_time = row.start_time;
      end_time = row.end_time;
      speaker_label = row.speaker_label;
      speaker_display = row.speaker_display;
      snippet = row.snippet;
      text = row.full_text;
      rank = row.rank;
      context_before =
          reverse (map to_context_segment (take context_size (unmatched (rows_before rows i))));
      context_after = map to_context_segment (take context_size (unmatched (drop (suc i) rows)));
    }

    mention_at-eq : (i : ℕ) (row : TurnRow Num) → mention_at rows i row ≡ mention_spec i row
    unfolding mention_at mention_spec
    mention_at-eq i row =
        rw
          (
            walk_back-eq i context_size [] (omega arith),
            walk_on-eq (length rows) (suc i) context_size [] (omega arith) (omega arith),
            append-nil,
          )
          refl

    -- The mentions of the matching turns among the last ones, from index `i` on.
    pub mentions_spec : ℕ → List (TurnRow Num) → List (Mention Num)
    mentions_spec i [] = []
    mentions_spec i (row ∷ rest) =
        if row.is_match
        then mention_spec i row ∷ mentions_spec (suc i) rest
        else mentions_spec (suc i) rest

    mentions_at-eq :
        (rest : List (TurnRow Num)) (i : ℕ)
        → drop i rows ≡ rest
        → mentions_at rows (match_indices i rest) ≡ mentions_spec i rest
    unfolding mentions_at match_indices mentions_spec
    mentions_at-eq [] i h = refl
    mentions_at-eq (row ∷ rest) i h =
        let (found, next) = drop-cons rows i row rest h in
        let ih = mentions_at-eq rest (suc i) next in
        elim (Bool-cases row.is_match) [
          | inl m ↦ simp m (rw (found, mentions_at) (ap₂ ◌∷◌ (mention_at-eq i row) ih))
          | inr m ↦ simp m ih
        ]

  -- The mentions are those of the matching turns, each once and in order. A mention has in front
  -- the turns back to the previous match, and behind it those up to the next match, at most two
  -- on either side and the nearest ones, in the order of the episode.
  pub mentions_of-eq : (rows : List (TurnRow Num)) → mentions_of rows ≡ mentions_spec rows 0 rows
  unfolding mentions_of
  mentions_of-eq rows = mentions_at-eq rows rows 0 refl
