-- ===== src/Filename/Fuel.antt =====
-- The length of a text is fuel enough for the runs of separators.
use podlog.Base.{
  ℕ, zero, suc, ◌≤◌, ◌≡◌, refl, ap, Bool, true, false, ◌&&◌, [], ◌∷◌, ◌++◌, Text, is_empty,
  is_prefix, drop, length, length-drop, Bool-cases, inl, inr, arith,
}
use podlog.Filename.{skip_separators, is_run, collapse_runs}

length-skip_separators :
    (fuel : ℕ) (separator s : Text) → length (skip_separators fuel separator s) ≤ length s
unfolding skip_separators
length-skip_separators zero separator s = omega arith
length-skip_separators (suc fuel) separator s = elim (Bool-cases (is_prefix separator s)) [
  | inl e ↦ rw e (
      omega (
        arith,
        length-skip_separators fuel separator (drop (length separator) s),
        length-drop (length separator) s,
      ))
  | inr e ↦ rw e (omega arith)
]

nonempty : (s : Text) → is_empty s ≡ false → 1 ≤ length s
nonempty [] e = cc
nonempty (c ∷ s) e = omega arith

no_prefix :
    (separator s : Text) → is_empty separator ≡ false → length s ≤ 0 → is_prefix separator s ≡ false
no_prefix [] s e h = cc
no_prefix (c ∷ separator) [] e h = refl
no_prefix (c ∷ separator) (d ∷ s) e h = ground arith

-- A run is skipped to its end.
skip_separators-end :
    (fuel : ℕ) (separator s : Text)
    → is_empty separator ≡ false
    → length s ≤ fuel
    → is_prefix separator (skip_separators fuel separator s) ≡ false
unfolding skip_separators
skip_separators-end zero separator s e h = no_prefix separator s e h
skip_separators-end (suc fuel) separator s e h = elim (Bool-cases (is_prefix separator s)) [
  | inl d ↦ rw d (
      skip_separators-end fuel separator (drop (length separator) s) e
        (omega (arith, h, length-drop (length separator) s, nonempty separator e)))
  | inr d ↦ rw (d, d) refl
]

skipped_shorter :
    (separator : Text) (c : ℕ) (s : Text)
    → is_empty separator ≡ false
    → is_prefix separator (c ∷ s) ≡ true
    → length (skip_separators (suc (length s)) separator (c ∷ s)) ≤ length s
unfolding skip_separators
skipped_shorter separator c s e d = rw d (
    omega (
      arith,
      length-skip_separators (length s) separator (drop (length separator) (c ∷ s)),
      length-drop (length separator) (c ∷ s),
      nonempty separator e,
    ))

-- Where the separator is not empty, every fuel that is at least the length of the text gives the
-- same.
collapse_runs-fuel :
    (m n : ℕ) (separator s : Text)
    → is_empty separator ≡ false
    → length s ≤ m
    → length s ≤ n
    → collapse_runs m separator s ≡ collapse_runs n separator s
unfolding collapse_runs
collapse_runs-fuel zero zero separator s e h k = refl
collapse_runs-fuel zero (suc n) separator [] e h k = refl
collapse_runs-fuel (suc m) zero separator [] e h k = refl
collapse_runs-fuel (suc m) (suc n) separator [] e h k = refl
collapse_runs-fuel zero (suc n) separator (c ∷ s) e h k = ground arith
collapse_runs-fuel (suc m) zero separator (c ∷ s) e h k = ground arith
collapse_runs-fuel (suc m) (suc n) separator (c ∷ s) e h k =
    elim (Bool-cases (is_run separator (c ∷ s))) [
      | inl d ↦ rw d (
          ap (λ t. separator ++ t)
            (collapse_runs-fuel m n separator (skip_separators (length (c ∷ s)) separator (c ∷ s)) e
              (omega (arith, h, shorter c s d)) (omega (arith, k, shorter c s d))))
      | inr d ↦ rw d (
          ap (λ t. c ∷ t)
            (collapse_runs-fuel m n separator s e (omega (arith, h)) (omega (arith, k))))
    ]
  where
    front : (a b : Bool) → (a && b) ≡ true → a ≡ true
    front true b d = refl
    front false b d = cc

    shorter :
        (c : ℕ) (s : Text)
        → is_run separator (c ∷ s) ≡ true
        → length (skip_separators (length (c ∷ s)) separator (c ∷ s)) ≤ length s
    shorter c s d = skipped_shorter separator c s e (front (is_prefix separator (c ∷ s)) _ d)
