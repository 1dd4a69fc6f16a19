-- ===== src/Search/Query/Scan.antt =====
-- Where the scope markers stand: in order, apart, inside the input, each before a visible unit.
use podlog.Base.{
  ℕ, zero, suc, ◌+◌, ◌-◌, ◌≤◌, ◌≡◌, Bool, false, none, some, List, [], ◌∷◌, arith, Text, is_space,
  length, All, drop, Option-cases, inl, inr, if◌then◌else◌,
}
use podlog.Search.Query.{
  Scope, title, description, speaker, ScopeMatch, is_word, fold_case, strip_name, scope_name,
  colon_size, match_name, match_here, match_all_from, match_all,
}

length-strip_name :
    (name s rest : Text) → strip_name name s ≡ some rest → length s ≡ length name + length rest
unfolding strip_name
length-strip_name [] s rest h = ground arith
length-strip_name (k ∷ name) [] rest h = ground arith
length-strip_name (k ∷ name) (c ∷ s) rest h = ground (arith, length-strip_name name s rest)

colon_size_bounds : (s : Text) (n : ℕ) → colon_size s ≡ some n → (1 ≤ n) × (n ≤ length s)
unfolding colon_size
colon_size_bounds [] n h = ground arith
colon_size_bounds (c ∷ s) n h = ground (arith, colon_size_bounds s (n - 1))

is_space_of_fold : (c k : ℕ) → fold_case c ≡ k → b'a' ≤ k → k ≤ b'z' → is_space c ≡ false
unfolding is_space
is_space_of_fold c k h p q = ground arith

-- The text begins with a unit that is no white space.
abbrev pub Begins : Text → Type 0
Begins [] = ⊥
Begins (c ∷ s) = is_space c ≡ false

strip_name-Begins :
    (k : ℕ) (name s rest : Text)
    → b'a' ≤ k
    → k ≤ b'z'
    → strip_name (k ∷ name) s ≡ some rest
    → Begins s
unfolding strip_name
strip_name-Begins k name [] rest p q h = cc
strip_name-Begins k name (c ∷ s) rest p q h = is_space_of_fold c k (ground arith) p q

scope_name-Begins :
    (scope : Scope) (s rest : Text) → strip_name (scope_name scope) s ≡ some rest → Begins s
scope_name-Begins title s rest h = strip_name-Begins _ _ s rest (omega arith) (omega arith) h
scope_name-Begins description s rest h = strip_name-Begins _ _ s rest (omega arith) (omega arith) h
scope_name-Begins speaker s rest h = strip_name-Begins _ _ s rest (omega arith) (omega arith) h

module _ (s : Text) (size : ℕ) where
  -- A marker that is found fits into the text, and stands before a letter.
  abbrev Fits : Type 0
  Fits = (1 ≤ size) × (size ≤ length s) × Begins s

  match_name-Fits : (scope scope' : Scope) → match_name scope s ≡ some (scope', size) → Fits
  unfolding match_name
  match_name-Fits scope scope' h = elim (Option-cases (strip_name (scope_name scope) s)) [
    | inl e ↦ absurd (ground arith)
    | inr (rest, e) ↦ elim (Option-cases (colon_size rest)) [
      | inl f ↦ absurd (ground arith)
      | inr (n, f) ↦
          let sized : size ≡ length (scope_name scope) + n = ground arith in
          let (a, b) = colon_size_bounds rest n f in
          let c = length-strip_name (scope_name scope) s rest e in
          (omega arith, omega arith, scope_name-Begins scope s rest e)
    ]
  ]

  match_here-Fits : (scope : Scope) → match_here s ≡ some (scope, size) → Fits
  unfolding match_here
  match_here-Fits scope h = elim (Option-cases (match_name title s)) [
    | inr (m, e) ↦ match_name-Fits title scope (ground arith)
    | inl e ↦ elim (Option-cases (match_name description s)) [
      | inr (m, f) ↦ match_name-Fits description scope (ground arith)
      | inl f ↦ match_name-Fits speaker scope (ground arith)
    ]
  ]

-- The markers lie in order between `lo` and `hi`, none empty, none over another.
abbrev pub Placed : ℕ → ℕ → List ScopeMatch → Type 0
Placed lo hi [] = lo ≤ hi
Placed lo hi (m ∷ ms) = (lo ≤ m.index) × (1 ≤ m.size) × Placed (m.index + m.size) hi ms

Placed-shift :
    {hi hi' : ℕ} (lo lo' : ℕ) (ms : List ScopeMatch)
    → lo' ≤ lo
    → hi ≡ hi'
    → Placed lo hi ms
    → Placed lo' hi' ms
Placed-shift lo lo' [] p q h = omega arith
Placed-shift lo lo' (m ∷ ms) p q (a, b, h) =
    (omega arith, b, Placed-shift (m.index + m.size) (m.index + m.size) ms (omega arith) q h)

-- Each marker stands at a visible unit of the text that begins at position `i`.
abbrev pub Stands : ℕ → Text → ScopeMatch → Type 0
Stands i s m = (d : ℕ) × (m.index ≡ i + d) × Begins (drop d s)

All-Stands-shift :
    (i c : ℕ) (s : Text) (ms : List ScopeMatch)
    → All (Stands (i + 1) s) ms
    → All (Stands i (c ∷ s)) ms
All-Stands-shift i c s [] h = tt
All-Stands-shift i c s (m ∷ ms) ((d, e, b), h) =
    ((suc d, omega arith, b), All-Stands-shift i c s ms h)

module _ (i : ℕ) (w : Bool) (c : ℕ) (s : Text) where
  match_all_from-none :
      (if w then none else match_here (c ∷ s)) ≡ none
      → match_all_from zero i w (c ∷ s) ≡ match_all_from zero (i + 1) (is_word c) s
  unfolding match_all_from
  match_all_from-none e = rw (e, match_all_from)

  match_all_from-some :
      (scope : Scope) (size : ℕ)
      → (if w then none else match_here (c ∷ s)) ≡ some (scope, size)
      → match_all_from zero i w (c ∷ s)
        ≡ record { scope = scope; index = i; size = size }
          ∷ match_all_from (size - 1) (i + 1) (is_word c) s
  unfolding match_all_from
  match_all_from-some scope size e = rw (e, match_all_from)

match_all_from-Placed :
    (skip i : ℕ) (w : Bool) (s : Text)
    → skip ≤ length s
    → Placed (i + skip) (i + length s) (match_all_from skip i w s)
unfolding match_all_from
match_all_from-Placed zero i w [] h = omega arith
match_all_from-Placed (suc skip) i w [] h = omega arith
match_all_from-Placed (suc skip) i w (c ∷ s) h =
    Placed-shift _ _ _ (omega arith) (omega arith)
      (match_all_from-Placed skip (i + 1) (is_word c) s (omega arith))
match_all_from-Placed zero i w (c ∷ s) h =
    elim (Option-cases (if w then none else match_here (c ∷ s))) [
      | inl e ↦ rw (match_all_from-none i w c s e) (
          Placed-shift _ _ _ (omega arith) (omega arith)
            (match_all_from-Placed zero (i + 1) (is_word c) s (omega arith)))
      | inr ((scope, size), e) ↦
          let (a, b, f) = match_here-Fits (c ∷ s) size scope (ground arith) in
          rw (match_all_from-some i w c s scope size e) (
            omega arith,
            a,
            Placed-shift _ _ _ (omega arith) (omega arith)
                (match_all_from-Placed (size - 1) (i + 1) (is_word c) s (omega arith)),
          )
    ]

match_all_from-Stands :
    (skip i : ℕ) (w : Bool) (s : Text) → All (Stands i s) (match_all_from skip i w s)
unfolding match_all_from
match_all_from-Stands zero i w [] = tt
match_all_from-Stands (suc skip) i w [] = tt
match_all_from-Stands (suc skip) i w (c ∷ s) =
    All-Stands-shift i c s _ (match_all_from-Stands skip (i + 1) (is_word c) s)
match_all_from-Stands zero i w (c ∷ s) =
    elim (Option-cases (if w then none else match_here (c ∷ s))) [
      | inl e ↦
          rw (match_all_from-none i w c s e)
            (All-Stands-shift i c s _ (match_all_from-Stands zero (i + 1) (is_word c) s))
      | inr ((scope, size), e) ↦
          let (a, b, f) = match_here-Fits (c ∷ s) size scope (ground arith) in
          rw (match_all_from-some i w c s scope size e) (
            (0, omega arith, f),
            All-Stands-shift i c s _ (match_all_from-Stands (size - 1) (i + 1) (is_word c) s),
          )
    ]

-- `matchAll` finds the scope markers in order and apart, inside the input, each at a letter.
pub match_all-Placed :
    (input : Text)
    → Placed 0 (length input) (match_all input) × All (Stands 0 input) (match_all input)
match_all-Placed input = (
  Placed-shift _ _ _ (omega arith) (omega arith)
      (match_all_from-Placed 0 0 false input (omega arith)),
  match_all_from-Stands 0 0 false input,
)
