-- ===== src/Feeds/Selection.antt =====
-- What the choice of one episode and of all episodes in view changes.
use podlog.Base.{
  ◌≡◌, refl, ap, ◌∙◌, Bool, true, false, not, ◌&&◌, ◌||◌, List, [], ◌∷◌, ◌++◌, any-append, Text,
  text_eq, text_eq→eq, if◌then◌else◌, Bool-cases, inl, inr,
}
use podlog.Base.Assoc.{text_eq_comm}
use podlog.Feeds.{
  has_guid, add_guid, delete_guid, every_has, add_each, delete_each, toggle_one, toggle_each,
}

-- A test of text is equal at equal texts.
at_equal : {A : Type 0} (f : Text → A) (g h : Text) → text_eq g h ≡ true → f g ≡ f h
at_equal f g h e = ap f (text_eq→eq g h e)

has-last :
    (set : List Text) (g h : Text) → has_guid (set ++ g ∷ []) h ≡ (text_eq h g || has_guid set h)
has-last set g h = any-append (text_eq h) set (g ∷ []) ∙ turn (has_guid set h) (text_eq h g)
  where
    turn : (a b : Bool) → (a || (b || false)) ≡ (b || a)
    turn true true = refl
    turn true false = refl
    turn false true = refl
    turn false false = refl

pub has-add_guid :
    (set : List Text) (g h : Text) → has_guid (add_guid g set) h ≡ (text_eq h g || has_guid set h)
has-add_guid set g h = elim (Bool-cases (has_guid set g)) [
  | inl e ↦ rw e (there (text_eq h g) (λ d. at_equal (has_guid set) h g d ∙ e))
  | inr e ↦ rw e (has-last set g h)
]
  where
    there : (b : Bool) → (b ≡ true → has_guid set h ≡ true) → has_guid set h ≡ (b || has_guid set h)
    there true e = e refl
    there false e = refl

pub has-delete_guid :
    (set : List Text) (g h : Text)
    → has_guid (delete_guid g set) h ≡ (not (text_eq h g) && has_guid set h)
has-delete_guid [] g h = elim (Bool-cases (text_eq h g)) [ inl e ↦ rw e refl | inr e ↦ rw e refl ]
has-delete_guid (k ∷ set) g h = elim (Bool-cases (text_eq g k)) [
  | inl e ↦ rw e (
      has-delete_guid set g h
      ∙ deleted (text_eq h g) (text_eq h k) (has_guid set h) (ap (text_eq h) (text_eq→eq g k e)))
  | inr e ↦ rw e (
      ap (λ b. text_eq h k || b) (has-delete_guid set g h)
      ∙ other (text_eq h g) (text_eq h k) (has_guid set h)
          (λ d. text_eq_comm h k ∙ (ap (text_eq k) (text_eq→eq h g d) ∙ (text_eq_comm k g ∙ e))))
]
  where
    deleted : (a b c : Bool) → a ≡ b → (not a && c) ≡ (not a && (b || c))
    deleted true b c e = refl
    deleted false false c e = refl
    deleted false true c e = cc

    other : (a b c : Bool) → (a ≡ true → b ≡ false) → (b || (not a && c)) ≡ (not a && (b || c))
    other true b c e = rw (e refl) refl
    other false b c e = refl

has-add_each :
    (scope set : List Text) (h : Text)
    → has_guid (add_each scope set) h ≡ (has_guid scope h || has_guid set h)
has-add_each [] set h = refl
has-add_each (g ∷ scope) set h =
    has-add_each scope (add_guid g set) h
    ∙ (ap (λ b. has_guid scope h || b) (has-add_guid set g h)
        ∙ swap (has_guid scope h) (text_eq h g) (has_guid set h))
  where
    swap : (a b c : Bool) → (a || (b || c)) ≡ ((b || a) || c)
    swap true true c = refl
    swap true false c = refl
    swap false true c = refl
    swap false false c = refl

has-delete_each :
    (scope set : List Text) (h : Text)
    → has_guid (delete_each scope set) h ≡ (not (has_guid scope h) && has_guid set h)
has-delete_each [] set h = refl
has-delete_each (g ∷ scope) set h =
    has-delete_each scope (delete_guid g set) h
    ∙ (ap (λ b. not (has_guid scope h) && b) (has-delete_guid set g h)
        ∙ swap (has_guid scope h) (text_eq h g) (has_guid set h))
  where
    swap : (a b c : Bool) → (not a && (not b && c)) ≡ (not (b || a) && c)
    swap true true c = refl
    swap true false c = refl
    swap false true c = refl
    swap false false c = refl

-- The choice of one episode turns it over and leaves the others.
pub has-toggle_one :
    (g h : Text) (set : List Text)
    → has_guid (toggle_one g set) h ≡ (if text_eq h g then not (has_guid set g) else has_guid set h)
unfolding toggle_one
has-toggle_one g h set = elim (Bool-cases (has_guid set g)) [
  | inl e ↦ rw e (has-delete_guid set g h ∙ gone (text_eq h g) (has_guid set h))
  | inr e ↦ rw e (has-last set g h ∙ come (text_eq h g) (has_guid set h))
]
  where
    gone : (a c : Bool) → (not a && c) ≡ (if a then false else c)
    gone true c = refl
    gone false c = refl

    come : (a c : Bool) → (a || c) ≡ (if a then true else c)
    come true c = refl
    come false c = refl

-- The bulk choice takes all of its scope, or lays all of it down where all of it was taken, and
-- leaves the others.
pub has-toggle_each :
    (scope set : List Text) (h : Text)
    → has_guid (toggle_each scope set) h
      ≡ (if has_guid scope h then not (every_has set scope) else has_guid set h)
unfolding toggle_each
has-toggle_each [] set h = refl
has-toggle_each (g ∷ scope) set h = elim (Bool-cases (every_has set (g ∷ scope))) [
  | inl e ↦
      rw e (has-delete_each (g ∷ scope) set h ∙ gone (has_guid (g ∷ scope) h) (has_guid set h))
  | inr e ↦ rw e (has-add_each (g ∷ scope) set h ∙ come (has_guid (g ∷ scope) h) (has_guid set h))
]
  where
    gone : (a c : Bool) → (not a && c) ≡ (if a then false else c)
    gone true c = refl
    gone false c = refl

    come : (a c : Bool) → (a || c) ≡ (if a then true else c)
    come true c = refl
    come false c = refl
