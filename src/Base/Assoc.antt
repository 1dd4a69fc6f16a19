-- ===== src/Base/Assoc.antt =====
-- A `Map` with text keys: the entries in the order in which their keys were first set.
use mathlib.Core.Path.{◌≡◌, refl, ◌∙◌}
use mathlib.Core.Logic.{inl, inr}
use mathlib.Core.Bool.{false, ◌||◌}
use mathlib.Core.List.{List, [], ◌∷◌, map}
use mathlib.Core.Option.{Option, none, some}
use native.Mathlib.Omega.{arith}
use podlog.Base.Test.{if◌then◌else◌, Bool-cases}
use podlog.Base.Lists.{All, any}
use podlog.Base.Str.{Text, text_eq, text_eq_refl, text_eq→eq}

pub text_eq_comm : (s t : Text) → text_eq s t ≡ text_eq t s
text_eq_comm [] [] = refl
text_eq_comm [] (b ∷ t) = refl
text_eq_comm (a ∷ s) [] = refl
text_eq_comm (a ∷ s) (b ∷ t) = ground (arith, text_eq_comm s t)

module _ {ℓ} {V : Type ℓ} where
  abbrev pub lookup : Text → List (Text × V) → Option V
  lookup k [] = none
  lookup k ((j, v) ∷ m) = if text_eq j k then some v else lookup k m

  -- `map.set(k, v)`: a key that is there keeps its place.
  abbrev pub set_key : Text → V → List (Text × V) → List (Text × V)
  set_key k v [] = (k, v) ∷ []
  set_key k v ((j, w) ∷ m) = if text_eq j k then (j, v) ∷ m else (j, w) ∷ set_key k v m

  abbrev pub keys : List (Text × V) → List Text
  keys = map (λ e. e.0)

  abbrev pub values : List (Text × V) → List V
  values = map (λ e. e.1)

  pub lookup-set_key_self :
      (k : Text) (v : V) (m : List (Text × V)) → lookup k (set_key k v m) ≡ some v
  lookup-set_key_self k v [] = ground (arith, text_eq_refl k)
  lookup-set_key_self k v ((j, w) ∷ m) = ground (arith, lookup-set_key_self k v m)

  pub lookup-set_key_ne :
      (k j : Text) (v : V) (m : List (Text × V))
      → text_eq k j ≡ false
      → lookup j (set_key k v m) ≡ lookup j m
  lookup-set_key_ne k j v [] h = ground arith
  lookup-set_key_ne k j v ((i, w) ∷ m) h = ground (arith, lookup-set_key_ne k j v m, text_eq→eq i k)

  pub lookup-set_key :
      (k j : Text) (v : V) (m : List (Text × V))
      → lookup j (set_key k v m) ≡ (if text_eq k j then some v else lookup j m)
  lookup-set_key k j v m = elim (Bool-cases (text_eq k j)) [
    | inl e ↦ rw (text_eq→eq k j e, text_eq_refl) (lookup-set_key_self j v m)
    | inr e ↦ rw e (lookup-set_key_ne k j v m e)
  ]

-- No key twice.
abbrev pub IsDistinct : List Text → Type 0
IsDistinct [] = Unit
IsDistinct (k ∷ ks) = All (λ j. text_eq j k ≡ false) ks × IsDistinct ks

module _ {ℓ} {V : Type ℓ} where
  All-ne-set_key :
      (i k : Text) (v : V) (m : List (Text × V))
      → text_eq k i ≡ false
      → All (λ j. text_eq j i ≡ false) (keys m)
      → All (λ j. text_eq j i ≡ false) (keys (set_key k v m))
  All-ne-set_key i k v [] h a = (h, tt)
  All-ne-set_key i k v ((j, w) ∷ m) h (a, as') = elim (Bool-cases (text_eq j k)) [
    | inl e ↦ rw e (a, as')
    | inr e ↦ rw e (a, All-ne-set_key i k v m h as')
  ]

  pub set_key-IsDistinct :
      (k : Text) (v : V) (m : List (Text × V))
      → IsDistinct (keys m)
      → IsDistinct (keys (set_key k v m))
  set_key-IsDistinct k v [] d = (tt, tt)
  set_key-IsDistinct k v ((j, w) ∷ m) (a, d) = elim (Bool-cases (text_eq j k)) [
    | inl e ↦ rw e (a, d)
    | inr e ↦ rw e (All-ne-set_key j k v m (text_eq_comm k j ∙ e) a, set_key-IsDistinct k v m d)
  ]

  -- The keys after a `set`: those before, and the new one.
  pub any-key-set_key :
      (q k : Text) (v : V) (m : List (Text × V))
      → any (λ j. text_eq j q) (keys (set_key k v m))
        ≡ (text_eq k q || any (λ j. text_eq j q) (keys m))
  any-key-set_key q k v [] = refl
  any-key-set_key q k v ((j, w) ∷ m) = ground (arith, any-key-set_key q k v m, text_eq→eq j k)
