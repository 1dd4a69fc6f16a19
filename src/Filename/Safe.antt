-- ===== src/Filename/Safe.antt =====
-- The codes of a file name, its length and its ends.
use podlog.Base.{
  ℕ, zero, suc, ◌≤◌, ◌≡◌, refl, Bool, true, false, not, ◌&&◌, [], ◌∷◌, ◌++◌, keep, All, All-append,
  Text, is_empty, is_prefix, is_space, drop, length, ltb, if◌then◌else◌, Bool-cases, inl, inr,
  arith,
}
use podlog.Filename.{
  is_reserved, spaces_to, skip_separators, is_run, collapse_runs, is_trim_char, drop_front,
  unless_end, drop_back, trim_edges, is_high, is_low, count_points, first_points, cut_to, separated,
}

-- A code that may stand in a name.
abbrev pub is_safe : ℕ → Bool
is_safe c = not (is_reserved c) && not (is_space c)

abbrev pub AreSafe : Text → Type 0
AreSafe = All (λ c. is_safe c ≡ true)

kept_not_reserved :
    (s : Text) → All (λ c. is_reserved c ≡ false) (keep (λ c. not (is_reserved c)) s)
kept_not_reserved [] = tt
kept_not_reserved (c ∷ s) = elim (Bool-cases (is_reserved c)) [
  | inl e ↦ rw e (kept_not_reserved s)
  | inr e ↦ rw e (e, kept_not_reserved s)
]

spaces_to-AreSafe :
    (separator : Text) (within : Bool) (s : Text)
    → AreSafe separator
    → All (λ c. is_reserved c ≡ false) s
    → AreSafe (spaces_to separator within s)
unfolding spaces_to
spaces_to-AreSafe separator within [] h k = tt
spaces_to-AreSafe separator within (c ∷ s) h (e, k) = elim (Bool-cases (is_space c)) [
  | inl d ↦ rw d (maybe within (spaces_to-AreSafe separator true s h k))
  | inr d ↦ rw d (rw (e, d) refl, spaces_to-AreSafe separator false s h k)
]
  where
    maybe :
        (b : Bool)
        → AreSafe (spaces_to separator true s)
        → AreSafe
            (if b then spaces_to separator true s else separator ++ spaces_to separator true s)
    maybe true r = r
    maybe false r = All-append _ separator (spaces_to separator true s) h r

drop-AreSafe : (n : ℕ) (s : Text) → AreSafe s → AreSafe (drop n s)
drop-AreSafe zero s h = h
drop-AreSafe (suc n) [] h = tt
drop-AreSafe (suc n) (c ∷ s) (e, h) = drop-AreSafe n s h

if_safe : (b : Bool) (s t : Text) → AreSafe s → AreSafe t → AreSafe (if b then s else t)
if_safe true s t h k = h
if_safe false s t h k = k

skip_separators-AreSafe :
    (fuel : ℕ) (separator s : Text) → AreSafe s → AreSafe (skip_separators fuel separator s)
unfolding skip_separators
skip_separators-AreSafe zero separator s h = h
skip_separators-AreSafe (suc fuel) separator s h =
    if_safe (is_prefix separator s) _ s
      (skip_separators-AreSafe fuel separator (drop (length separator) s)
        (drop-AreSafe (length separator) s h))
      h

collapse_runs-AreSafe :
    (fuel : ℕ) (separator s : Text)
    → AreSafe separator
    → AreSafe s
    → AreSafe (collapse_runs fuel separator s)
unfolding collapse_runs
collapse_runs-AreSafe zero separator s h k = k
collapse_runs-AreSafe (suc fuel) separator [] h k = tt
collapse_runs-AreSafe (suc fuel) separator (c ∷ s) h (e, k) =
    if_safe (is_run separator (c ∷ s)) _ _
      (All-append _ separator _ h (
        collapse_runs-AreSafe fuel separator (skip_separators (length (c ∷ s)) separator (c ∷ s)) h
          (skip_separators-AreSafe (length (c ∷ s)) separator (c ∷ s) (e, k))))
      (e, collapse_runs-AreSafe fuel separator s h k)

pub separated-AreSafe :
    (normalize : Text → Text) (separator name : Text)
    → AreSafe separator
    → AreSafe (separated normalize separator name)
unfolding separated
separated-AreSafe normalize separator name h =
    let spaced = spaces_to separator false (keep (λ c. not (is_reserved c)) (normalize name)) in
    let safe =
      spaces_to-AreSafe separator false (keep (λ c. not (is_reserved c)) (normalize name)) h
        (kept_not_reserved (normalize name)) in
    if_safe (is_empty separator) spaced (collapse_runs (length spaced) separator spaced) safe
      (collapse_runs-AreSafe (length spaced) separator spaced h safe)

-- The first and the last code of a text pass the test.
abbrev pub begins : (ℕ → Bool) → Text → Bool
begins test [] = false
begins test (c ∷ s) = test c

abbrev pub ends : (ℕ → Bool) → Text → Bool
ends test [] = false
ends test (c ∷ []) = test c
ends test (c ∷ d ∷ s) = ends test (d ∷ s)

pub begins-drop_front : (test : ℕ → Bool) (s : Text) → begins test (drop_front test s) ≡ false
begins-drop_front test [] = refl
begins-drop_front test (c ∷ s) = elim (Bool-cases (test c)) [
  | inl e ↦ rw e (begins-drop_front test s)
  | inr e ↦ rw e e
]

pub begins-drop_back :
    (test : ℕ → Bool) (s : Text) → begins test s ≡ false → begins test (drop_back test s) ≡ false
begins-drop_back test [] h = refl
begins-drop_back test (c ∷ s) h = kept (drop_back test s)
  where
    kept : (r : Text) → begins test (unless_end test c r) ≡ false
    kept [] = rw h h
    kept (d ∷ r) = h

ends-drop_back : (test : ℕ → Bool) (s : Text) → ends test (drop_back test s) ≡ false
ends-drop_back test [] = refl
ends-drop_back test (c ∷ s) = kept (drop_back test s) (ends-drop_back test s)
  where
    kept : (r : Text) → ends test r ≡ false → ends test (unless_end test c r) ≡ false
    kept [] h = elim (Bool-cases (test c)) [ inl e ↦ rw e refl | inr e ↦ rw e e ]
    kept (d ∷ r) h = h

drop_front-AreSafe : (test : ℕ → Bool) (s : Text) → AreSafe s → AreSafe (drop_front test s)
drop_front-AreSafe test [] h = tt
drop_front-AreSafe test (c ∷ s) (e, h) =
    if_safe (test c) (drop_front test s) (c ∷ s) (drop_front-AreSafe test s h) (e, h)

drop_back-AreSafe : (test : ℕ → Bool) (s : Text) → AreSafe s → AreSafe (drop_back test s)
drop_back-AreSafe test [] h = tt
drop_back-AreSafe test (c ∷ s) (e, h) = kept (drop_back test s) (drop_back-AreSafe test s h)
  where
    kept : (r : Text) → AreSafe r → AreSafe (unless_end test c r)
    kept [] k = if_safe (test c) [] (c ∷ []) tt (e, tt)
    kept (d ∷ r) k = (e, k)

first_points-AreSafe :
    (n : ℕ) (high : Bool) (s : Text) → AreSafe s → AreSafe (first_points n high s)
first_points-AreSafe n high [] h = tt
first_points-AreSafe zero high (c ∷ s) (e, h) =
    if_safe (high && is_low c) (c ∷ first_points zero (is_high c) s) []
      (e, first_points-AreSafe zero (is_high c) s h) tt
first_points-AreSafe (suc n) high (c ∷ s) (e, h) =
    (e, first_points-AreSafe (if high && is_low c then suc n else n) (is_high c) s h)

count-first_points :
    (n : ℕ) (high : Bool) (s : Text) → count_points high (first_points n high s) ≤ n
count-first_points n high [] = omega arith
count-first_points zero high (c ∷ s) = elim (Bool-cases (high && is_low c)) [
  | inl e ↦ rw (e, e) (omega (arith, count-first_points zero (is_high c) s))
  | inr e ↦ rw e (omega arith)
]
count-first_points (suc n) high (c ∷ s) = elim (Bool-cases (high && is_low c)) [
  | inl e ↦ rw e (omega (arith, count-first_points (suc n) (is_high c) s))
  | inr e ↦ rw e (omega (arith, count-first_points n (is_high c) s))
]

-- The code in front changes the count by one at most.
count_flag : (high : Bool) (s : Text) → count_points false s ≤ suc (count_points high s)
count_flag high [] = omega arith
count_flag high (c ∷ s) = elim (Bool-cases (high && is_low c)) [
  | inl e ↦ rw e (omega arith)
  | inr e ↦ rw e (omega arith)
]

count-drop_front :
    (test : ℕ → Bool) (s : Text) → count_points false (drop_front test s) ≤ count_points false s
count-drop_front test [] = omega arith
count-drop_front test (c ∷ s) = elim (Bool-cases (test c)) [
  | inl e ↦ rw e (omega (arith, count-drop_front test s, count_flag (is_high c) s))
  | inr e ↦ rw e (omega arith)
]

count-drop_back :
    (test : ℕ → Bool) (high : Bool) (s : Text)
    → count_points high (drop_back test s) ≤ count_points high s
count-drop_back test high [] = omega arith
count-drop_back test high (c ∷ s) = kept (drop_back test s) (count-drop_back test (is_high c) s)
  where
    kept :
        (r : Text)
        → count_points (is_high c) r ≤ count_points (is_high c) s
        → count_points high (unless_end test c r) ≤ count_points high (c ∷ s)
    kept [] k = elim (Bool-cases (test c)) [
      | inl e ↦ rw e (omega arith)
      | inr e ↦ rw e (omega arith)
    ]
    kept (d ∷ r) k = omega (arith, k)

-- A text that may be a name: of safe codes, at most so many code points long, and trimmed.
abbrev pub IsTrimmed : (max_length : ℕ) → (separator : Text) → Text → Type 0
IsTrimmed max_length separator s =
    AreSafe s
    × (count_points false s ≤ max_length)
    × (begins (is_trim_char separator) s ≡ false)
    × (ends (is_trim_char separator) s ≡ false)

pub trim_edges-IsTrimmed :
    (max_length : ℕ) (separator s : Text)
    → AreSafe s
    → count_points false s ≤ max_length
    → IsTrimmed max_length separator (trim_edges s separator)
unfolding trim_edges
trim_edges-IsTrimmed max_length separator s h k =
    let test = is_trim_char separator in
    (
      drop_back-AreSafe test (drop_front test s) (drop_front-AreSafe test s h),
      omega (arith, count-drop_back test false (drop_front test s), count-drop_front test s, k),
      begins-drop_back test (drop_front test s) (begins-drop_front test s),
      ends-drop_back test (drop_front test s),
    )

not_less : (m n : ℕ) → ltb m n ≡ false → n ≤ m
not_less m n e = ground arith

-- The name is cut where it is too long, and trimmed in either case.
pub cut_to-IsTrimmed :
    (max_length : ℕ) (separator s : Text)
    → AreSafe s
    → IsTrimmed max_length separator (cut_to max_length separator (trim_edges s separator))
unfolding cut_to
cut_to-IsTrimmed max_length separator s h =
    let t = trim_edges s separator in
    let (safe, enough, front, back) =
      trim_edges-IsTrimmed (count_points false s) separator s h (omega arith) in
    either t safe front back (
      trim_edges-IsTrimmed max_length separator (first_points max_length false t)
        (first_points-AreSafe max_length false t safe) (count-first_points max_length false t))
  where
    either :
        (t : Text)
        → AreSafe t
        → begins (is_trim_char separator) t ≡ false
        → ends (is_trim_char separator) t ≡ false
        → IsTrimmed max_length separator (trim_edges (first_points max_length false t) separator)
        → IsTrimmed max_length separator (
            if ltb max_length (count_points false t)
            then trim_edges (first_points max_length false t) separator
            else t)
    either t safe front back cut = elim (Bool-cases (ltb max_length (count_points false t))) [
      | inl e ↦ rw e cut
      | inr e ↦ rw e (safe, not_less max_length (count_points false t) e, front, back)
    ]
