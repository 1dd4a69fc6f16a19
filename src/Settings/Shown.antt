-- ===== src/Settings/Shown.antt =====
-- What the form shows: every sequence of steps in which nothing is edited while a save runs.
use podlog.Base.{
  ◌≡◌, refl, ap, ◌∙◌, Bool, true, false, Option, none, some, [], ◌∷◌, Text, text_eq, text_eq→eq,
  if◌then◌else◌, Bool-cases, inl, inr,
}
use podlog.Base.Assoc.{lookup, lookup-set_key}
use podlog.Settings.{or_else, lookup-drop_key}
use podlog.Settings.Form.{
  is_inference, Object, Saving, idle, first, second, SettingsForm, loaded, put_back, revert,
  discard_idle,
}

pub or_else_idem : {A : Type 0} (a b : Option A) → or_else a (or_else a b) ≡ or_else a b
or_else_idem none b = refl
or_else_idem (some v) b = refl

-- The key has a value.
abbrev has {ℓ} : {A : Type ℓ} → Option A → Bool
has none = false
has (some v) = true

module _ {Value : Type 0} where
  lookup-put_back :
      (key k : Text) (v : Option Value) (m : Object Value)
      → lookup k (put_back key v m) ≡ (if text_eq key k then v else lookup k m)
  lookup-put_back key k none m = lookup-drop_key key k m
  lookup-put_back key k (some v) m = lookup-set_key key k v m

  -- A key that is reverted has the saved value, and the others keep theirs.
  lookup-revert :
      (k : Text) (fields saved m : Object Value)
      → lookup k (revert fields saved m)
        ≡ (if has (lookup k fields) then lookup k saved else lookup k m)
  lookup-revert k [] saved m = refl
  lookup-revert k ((j, v) ∷ fields) saved m = elim (Bool-cases (text_eq j k)) [
    | inl e ↦
        lookup-put_back j k (lookup j saved) (revert fields saved m) ∙ rw (e, text_eq→eq j k e) refl
    | inr e ↦
        lookup-put_back j k (lookup j saved) (revert fields saved m)
        ∙ rw e (lookup-revert k fields saved m)
  ]

  -- What the form shows at a key.
  abbrev pub expected : SettingsForm Value → Text → Option Value
  expected f k =
      or_else (lookup k f.dirty_notifications)
        (or_else (lookup k f.dirty_inference) (lookup k f.saved))

-- `plain` tells the keys that the server leaves as they are sent.
module _ {Value : Type 0} (plain : Text → Bool) where
  -- The requests that are under way were begun from the edits that the form still counts, or have
  -- been taken.
  abbrev pub Under : Saving Value → SettingsForm Value → Type 0
  Under idle f = Unit
  Under (first n i) f = (n ≡ f.dirty_notifications) × (i ≡ f.dirty_inference)
  Under (second n i) f =
      (i ≡ f.dirty_inference)
      × ((k : Text) → is_inference k ≡ true → lookup k n ≡ none)
      × ((k : Text)
          → plain k ≡ true
          → or_else (lookup k n) (lookup k f.row)
            ≡ or_else (lookup k f.dirty_notifications) (lookup k f.row))

  pub record IsSound (f : SettingsForm Value) : Type 0 where
    pub shows : (k : Text) → plain k ≡ true → lookup k f.settings ≡ expected f k
    pub notifications_apart :
        (k : Text) → is_inference k ≡ true → lookup k f.dirty_notifications ≡ none
    pub inference_apart : (k : Text) → is_inference k ≡ false → lookup k f.dirty_inference ≡ none
    pub under : Under f.saving f

  pub loaded-IsSound :
      (view : Object Value → Object Value) (row : Object Value) → IsSound (loaded view row)
  loaded-IsSound view row = record {
    shows = λ k p. refl;
    notifications_apart = λ k h. refl;
    inference_apart = λ k h. refl;
    under = tt;
  }

  pub discard_idle-IsSound :
      (f : SettingsForm Value) → IsSound f → f.saving ≡ idle → IsSound (discard_idle f)
  discard_idle-IsSound f s e = record {
    shows = λ k p.
        lookup-revert k f.dirty_inference f.saved (revert f.dirty_notifications f.saved f.settings)
        ∙ (ap (λ o. if has (lookup k f.dirty_inference) then lookup k f.saved else o)
              (lookup-revert k f.dirty_notifications f.saved f.settings)
            ∙ (ap
                  (λ o.
                    if has (lookup k f.dirty_inference)
                    then lookup k f.saved
                    else if has (lookup k f.dirty_notifications)
                    then lookup k f.saved
                    else o)
                  (s.shows k p)
                ∙ reverted (lookup k f.dirty_notifications) (lookup k f.dirty_inference)
                    (lookup k f.saved)));
    notifications_apart = λ k h. refl;
    inference_apart = λ k h. refl;
    under = rw e tt;
  }
    where
      reverted :
          (n i o : Option Value)
          → (if has i then o else if has n then o else or_else n (or_else i o)) ≡ o
      reverted none none o = refl
      reverted (some v) none o = refl
      reverted n (some v) o = refl
