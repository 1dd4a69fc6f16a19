-- ===== src/Search/Sql.antt =====
-- The statements that the web application sends through its `pg` pool: a text with numbered
-- places `$n`, and the parameters that fill them. Text between places is kept as it is written,
-- with each run of white space as one space.
use Prim.Native.String.{String}
use native.Mathlib.Decide.{dec_lt}
use podlog.Base.{
  ℕ, ◌+◌, ◌≤◌, ◌<◌, ◌≡◌, refl, ap, true, Option, List, [], ◌∷◌, ◌++◌, arith, Text, length, any,
  any-append, All, All-append, ◌==◌,
}

-- `place n` is `$n`.
pub data Piece : Type 0 where
  text : String → Piece
  place : ℕ → Piece

abbrev pub Sql : Type 0
Sql = List Piece

pub data Param : Type 0 where
  text : Option Text → Param
  uuids : List Text → Param
  num : ℕ → Param

pub record Query : Type 0 where
  pub sql : Sql
  pub params : List Param

abbrev pub places : Sql → List ℕ
places [] = []
places (Piece.text s ∷ sql) = places sql
places (place n ∷ sql) = n ∷ places sql

pub places-append : (a b : Sql) → places (a ++ b) ≡ places a ++ places b
places-append [] b = refl
places-append (Piece.text s ∷ a) b = places-append a b
places-append (place n ∷ a) b = ap (◌∷◌ n) (places-append a b)

-- The places are exactly the numbers from `lo` up to, and without, `hi`; each may recur.
pub record Covers (lo hi : ℕ) (ns : List ℕ) : Type 0 where
  pub within : All (λ n. (lo ≤ n) × (n < hi)) ns
  pub used : (i : ℕ) → lo ≤ i → i < hi → any (λ n. n == i) ns ≡ true

-- Every place names a parameter, and every parameter has a place: Postgres refuses a statement
-- where either fails.
abbrev pub IsBound : Query → Type 0
IsBound q = Covers 1 (1 + length q.params) (places q.sql)

All-widen :
    (lo hi lo' hi' : ℕ) (ns : List ℕ)
    → lo' ≤ lo
    → hi ≤ hi'
    → All (λ n. (lo ≤ n) × (n < hi)) ns
    → All (λ n. (lo' ≤ n) × (n < hi')) ns
All-widen lo hi lo' hi' [] p q h = tt
All-widen lo hi lo' hi' (n ∷ ns) p q ((a, b), h) =
    ((omega arith, omega arith), All-widen lo hi lo' hi' ns p q h)

pub Covers-nil : (lo : ℕ) → Covers lo lo []
Covers-nil lo = record { within = tt; used = λ i p q. absurd (omega arith) }

pub Covers-one : (n : ℕ) → Covers n (n + 1) (n ∷ [])
Covers-one n = record { within = ((omega arith, omega arith), tt); used = λ i p q. ground arith }

pub Covers-two : (n : ℕ) → Covers n (n + 1) (n ∷ n ∷ [])
Covers-two n = record {
  within = ((omega arith, omega arith), ((omega arith, omega arith), tt));
  used = λ i p q. ground arith;
}

module _ {lo mid hi : ℕ} (ms ns : List ℕ) (p : lo ≤ mid) (q : mid ≤ hi) where
  used-append :
      ((i : ℕ) → lo ≤ i → i < mid → any (λ n. n == i) ms ≡ true)
      → ((i : ℕ) → mid ≤ i → i < hi → any (λ n. n == i) ns ≡ true)
      → (i : ℕ) → lo ≤ i
      → i < hi
      → any (λ n. n == i) (ms ++ ns) ≡ true
  used-append h k i a b = elim (dec_lt i mid) [
    | yes c ↦ ground (arith, any-append (λ n. n == i) ms ns, h i a c)
    | no c ↦ ground (arith, any-append (λ n. n == i) ms ns, k i (omega arith) b)
  ]

  -- Places numbered on from where those of the text in front end.
  pub Covers-append : Covers lo mid ms → Covers mid hi ns → Covers lo hi (ms ++ ns)
  Covers-append h k = record {
    within =
        All-append _ ms ns (All-widen lo mid lo hi ms (omega arith) q h.within)
          (All-widen mid hi lo hi ns p (omega arith) k.within);
    used = used-append h.used k.used;
  }

-- A place that was used before may be used again.
pub Covers-again :
    {lo hi n : ℕ} (ns : List ℕ) → Covers lo hi ns → lo ≤ n → n < hi → Covers lo hi (ns ++ n ∷ [])
Covers-again {n = n} ns h a b = record {
  within = All-append _ ns _ h.within ((a, b), tt);
  used = λ i c d. ground (arith, any-append (λ n. n == i) ns (n ∷ []), h.used i c d);
}
