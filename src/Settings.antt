-- ===== src/Settings.antt =====
-- The settings page. apps/web/src/components/NotificationSettings.tsx: the form over the two tabs
-- that save together. An object of the source is a map with text keys.
pub mod Form
pub mod Shown
pub mod Kept
pub mod Answered
pub mod Prompts
mod Tests
use podlog.Base.{
  ◌≡◌, refl, Bool, true, false, Option, none, some, List, [], ◌∷◌, Text, codes, text_eq, text_eq→eq,
  any, ap, if◌then◌else◌, Bool-cases, inl, inr, ◌∙◌, sym, arith,
}
use podlog.Base.Assoc.{lookup, set_key, lookup-set_key, text_eq_comm}

module _ {Value : Type 0} where
  -- `{ ...base, ...top }`; the keys of an object are different.
  abbrev pub overlay : (base top : List (Text × Value)) → List (Text × Value)
  overlay base [] = base
  overlay base ((k, v) ∷ top) = set_key k v (overlay base top)

  abbrev pub or_else : Option Value → Option Value → Option Value
  or_else (some v) other = some v
  or_else none other = other

  pub lookup-overlay :
      (k : Text) (base top : List (Text × Value))
      → lookup k (overlay base top) ≡ or_else (lookup k top) (lookup k base)
  lookup-overlay k base [] = refl
  lookup-overlay k base ((j, v) ∷ top) = elim (Bool-cases (text_eq j k)) [
    | inl e ↦ lookup-set_key j k v (overlay base top) ∙ rw e refl
    | inr e ↦ lookup-set_key j k v (overlay base top) ∙ rw e (lookup-overlay k base top)
  ]

  -- The object without a key: a property that is set to `undefined`.
  abbrev pub drop_key : Text → List (Text × Value) → List (Text × Value)
  drop_key k [] = []
  drop_key k ((j, v) ∷ m) = if text_eq j k then drop_key k m else (j, v) ∷ drop_key k m

  dropped :
      (i k j : Text) (v : Value) (rest : Option Value)
      → text_eq i k ≡ true
      → (if text_eq k j then none else rest)
        ≡ (if text_eq k j then none else if text_eq i j then some v else rest)
  dropped i k j v rest e = elim (Bool-cases (text_eq k j)) [
    | inl d ↦ rw d refl
    | inr d ↦ rw (d, text_eq→eq i k e, d) refl
  ]

  pub lookup-drop_key :
      (k j : Text) (m : List (Text × Value))
      → lookup j (drop_key k m) ≡ (if text_eq k j then none else lookup j m)
  lookup-drop_key k j [] = elim (Bool-cases (text_eq k j)) [ inl e ↦ rw e refl | inr e ↦ rw e refl ]
  lookup-drop_key k j ((i, v) ∷ m) = elim (Bool-cases (text_eq i k)) [
    | inl e ↦ rw e (lookup-drop_key k j m ∙ dropped i k j v (lookup j m) e)
    | inr e ↦ elim (Bool-cases (text_eq i j)) [
      | inl d ↦
          rw (e, d, text_eq_comm k j ∙ (ap (λ t. text_eq t k) (sym (text_eq→eq i j d)) ∙ e)) refl
      | inr d ↦ rw (e, d) (lookup-drop_key k j m)
    ]
  ]
