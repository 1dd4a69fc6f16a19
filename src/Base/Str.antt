-- ===== src/Base/Str.antt =====
-- Text as the list of its UTF-16 code units, which is what the string methods of the source walk.
-- White space is the set that `trim` and `\s` share.
use Prim.Native.Char.{code}
use Prim.Native.String.{String}
use Prim.Native.Nat.{ℕ, suc}
use mathlib.Core.Path.{◌≡◌, refl, ap}
use mathlib.Core.Logic.{inl, inr}
use mathlib.Core.Bool.{Bool, true, false, ◌&&◌, ◌||◌}
use mathlib.Core.List.{List, [], ◌∷◌, ◌++◌}
use mathlib.Core.Option.{Option, none, some}
use native.Mathlib.Omega.{arith}
use podlog.Base.Test.{leb, ◌==◌, if◌then◌else◌, Bool-cases}

abbrev pub Text : Type 0
Text = List ℕ

-- A literal. Every literal of the source is in the basic plane, so its code units are its
-- code points.
abbrev pub codes : String → Text
codes String.[] = []
codes (String.◌∷◌ c s) = code c ∷ codes s

abbrev pub text_eq : Text → Text → Bool
text_eq [] [] = true
text_eq (a ∷ s) (b ∷ t) = (a == b) && text_eq s t
text_eq _ _ = false

pub text_eq_refl : (s : Text) → text_eq s s ≡ true
text_eq_refl [] = refl
text_eq_refl (c ∷ s) = ground (arith, text_eq_refl s)

pub text_eq→eq : (s t : Text) → text_eq s t ≡ true → s ≡ t
text_eq→eq [] [] h = refl
text_eq→eq [] (b ∷ t) h = ground arith
text_eq→eq (a ∷ s) [] h = ground arith
text_eq→eq (a ∷ s) (b ∷ t) h = ground (arith, text_eq→eq s t)

unfoldable pub is_space : ℕ → Bool
is_space c =
    leb 9 c && leb c 13
    || c == 32
    || c == 0xa0
    || c == 0x1680
    || leb 0x2000 c && leb c 0x200a
    || c == 0x2028
    || c == 0x2029
    || c == 0x202f
    || c == 0x205f
    || c == 0x3000
    || c == 0xfeff

unfoldable pub trim_start : Text → Text
trim_start [] = []
trim_start (c ∷ s) = if is_space c then trim_start s else c ∷ s

-- The text without its trailing white space.
unfoldable pub trim_end : Text → Text
trim_end [] = []
trim_end (c ∷ s) =
    let rest = trim_end s in
    elim rest [ [] ↦ if is_space c then [] else c ∷ [] | d ∷ t ↦ c ∷ d ∷ t ]

unfoldable pub trim : Text → Text
unfolding trim_start trim_end is_space
trim s = trim_end (trim_start s)

abbrev pub is_empty {ℓ} : {A : Type ℓ} → List A → Bool
is_empty [] = true
is_empty (x ∷ xs) = false

-- A value of type `string | null` under a test for truth: the empty text counts as absent.
abbrev pub present : Option Text → Option Text
present none = none
present (some []) = none
present (some (c ∷ s)) = some (c ∷ s)

abbrev pub is_prefix : Text → Text → Bool
is_prefix [] t = true
is_prefix (a ∷ s) [] = false
is_prefix (a ∷ s) (b ∷ t) = (a == b) && is_prefix s t

-- `t.indexOf(s)`, with the position counted from `i`; `none` stands for -1.
abbrev pub index_from : ℕ → Text → Text → Option ℕ
index_from i s [] = if is_empty s then some i else none
index_from i s (b ∷ t) = if is_prefix s (b ∷ t) then some i else index_from (suc i) s t

abbrev pub includes : Text → Text → Bool
includes t s = elim (index_from 0 s t) [ none ↦ false | some _ ↦ true ]

-- `parts.join(sep)`, also for lists of other pieces than code units.
abbrev pub join {ℓ} : {A : Type ℓ} → List A → List (List A) → List A
join sep [] = []
join sep (s ∷ []) = s
join sep (s ∷ t ∷ ts) = s ++ (sep ++ join sep (t ∷ ts))

-- A text without white space.
abbrev pub IsVisible : Text → Type 0
IsVisible [] = Unit
IsVisible (c ∷ s) = (is_space c ≡ false) × IsVisible s

trim_end_of_visible : (s : Text) → IsVisible s → trim_end s ≡ s
unfolding trim_end
trim_end_of_visible [] h = refl
trim_end_of_visible (c ∷ []) (e, h) = rw e refl
trim_end_of_visible (c ∷ d ∷ s) (e, h) = rw (trim_end_of_visible (d ∷ s) h) refl

pub trim_of_visible : (s : Text) → IsVisible s → trim s ≡ s
unfolding trim
trim_of_visible [] h = refl
trim_of_visible (c ∷ s) (e, h) = rw e (trim_end_of_visible (c ∷ s) (e, h))

pub IsVisible-append : (s t : Text) → IsVisible s → IsVisible t → IsVisible (s ++ t)
IsVisible-append [] t h k = k
IsVisible-append (c ∷ s) t (e, h) k = (e, IsVisible-append s t h k)

abbrev end_with : ℕ → Text → Text
end_with c rest = elim rest [ [] ↦ if is_space c then [] else c ∷ [] | d ∷ t ↦ c ∷ d ∷ t ]

end_with_visible : (c : ℕ) (rest : Text) → is_space c ≡ false → end_with c rest ≡ c ∷ rest
end_with_visible c [] h = rw h refl
end_with_visible c (d ∷ t) h = refl

trim_end-cons : (c : ℕ) (s : Text) → is_space c ≡ false → trim_end (c ∷ s) ≡ c ∷ trim_end s
unfolding trim_end
trim_end-cons c s h = end_with_visible c (trim_end s) h

trim_end-end_with :
    (c : ℕ) (rest : Text) → trim_end rest ≡ rest → trim_end (end_with c rest) ≡ end_with c rest
unfolding trim_end
trim_end-end_with c [] h = elim (Bool-cases (is_space c)) [
  | inl e ↦ rw e refl
  | inr e ↦ rw (e, e) refl
]
trim_end-end_with c (d ∷ t) h = ap (end_with c) h

trim_end_idem : (s : Text) → trim_end (trim_end s) ≡ trim_end s
unfolding trim_end
trim_end_idem [] = refl
trim_end_idem (c ∷ s) = trim_end-end_with c (trim_end s) (trim_end_idem s)

pub trim_idem : (s : Text) → trim (trim s) ≡ trim s
unfolding trim
trim_idem [] = refl
trim_idem (c ∷ s) = elim (Bool-cases (is_space c)) [
  | inl e ↦ rw e (trim_idem s)
  | inr e ↦ rw (e, trim_end-cons c s e, e, trim_end-cons c (trim_end s) e, trim_end_idem s) refl
]
