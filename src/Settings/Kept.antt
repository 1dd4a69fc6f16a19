-- ===== src/Settings/Kept.antt =====
-- What the form shows: each step of the form keeps `IsSound`.
use podlog.Base.{
  ◌≡◌, refl, sym, ap, ◌∙◌, Bool, true, false, not, Option, none, some, [], ◌∷◌, Text, text_eq,
  text_eq→eq, if◌then◌else◌, Bool-cases, inl, inr,
}
use podlog.Base.Assoc.{lookup, set_key, lookup-set_key}
use podlog.Settings.{or_else}
use podlog.Settings.Form.{
  is_inference, Object, Saving, idle, first, second, SettingsForm, handle_change, discard_at,
  discard, begin_save, click_at, click_save,
}
use podlog.Settings.Shown.{Under, IsSound, discard_idle-IsSound}

module _ {Value : Type 0} where
  changed_inference :
      (a : Bool) (v : Value) (n i o : Option Value)
      → (a ≡ true → n ≡ none)
      → (if a then some v else or_else n (or_else i o))
        ≡ or_else n (or_else (if a then some v else i) o)
  changed_inference false v n i o h = refl
  changed_inference true v n i o h = rw (h refl) refl

  changed_notifications :
      (a : Bool) (v : Value) (n i o : Option Value)
      → (if a then some v else or_else n (or_else i o))
        ≡ or_else (if a then some v else n) (or_else i o)
  changed_notifications false v n i o = refl
  changed_notifications true v n i o = refl

  -- A key of the other tab is not the edited one.
  lookup-set_key_apart :
      (field k : Text) (v : Value) (m : Object Value) (b : Bool)
      → is_inference field ≡ not b
      → is_inference k ≡ b
      → lookup k m ≡ none
      → lookup k (set_key field v m) ≡ none
  lookup-set_key_apart field k v m b hf hk h =
      lookup-set_key field k v m ∙ elim (Bool-cases (text_eq field k)) [
        | inl e ↦ absurd_at b (sym hf ∙ (ap is_inference (text_eq→eq field k e) ∙ hk))
        | inr e ↦ rw e h
      ]
    where
      absurd_at : {A : Type 0} (c : Bool) → not c ≡ c → A
      absurd_at true e = cc
      absurd_at false e = cc

module _ {Value : Type 0} (plain : Text → Bool) where
  pub handle_change-IsSound :
      (field : Text) (value : Value) (f : SettingsForm Value)
      → f.saving ≡ idle
      → IsSound plain f
      → IsSound plain (handle_change field value f)
  unfolding handle_change
  handle_change-IsSound field value f e s = elim (Bool-cases (is_inference field)) [
    | inl h ↦ rw h (record {
      shows = λ k p.
          lookup-set_key field k value f.settings
          ∙ (ap (λ o. if text_eq field k then some value else o) (s.shows k p)
              ∙ (changed_inference (text_eq field k) value (lookup k f.dirty_notifications)
                    (lookup k f.dirty_inference) (lookup k f.saved)
                    (λ d.
                      s.notifications_apart k (sym (ap is_inference (text_eq→eq field k d)) ∙ h))
                  ∙ ap
                      (λ o. or_else (lookup k f.dirty_notifications) (or_else o (lookup k f.saved)))
                      (sym (lookup-set_key field k value f.dirty_inference))));
      notifications_apart = s.notifications_apart;
      inference_apart = λ k d.
          lookup-set_key_apart field k value f.dirty_inference false h d (s.inference_apart k d);
      under = rw e tt;
    })
    | inr h ↦ rw h (record {
      shows = λ k p.
          lookup-set_key field k value f.settings
          ∙ (ap (λ o. if text_eq field k then some value else o) (s.shows k p)
              ∙ (changed_notifications (text_eq field k) value (lookup k f.dirty_notifications)
                    (lookup k f.dirty_inference) (lookup k f.saved)
                  ∙ ap (λ o. or_else o (or_else (lookup k f.dirty_inference) (lookup k f.saved)))
                      (sym (lookup-set_key field k value f.dirty_notifications))));
      notifications_apart = λ k d.
          lookup-set_key_apart field k value f.dirty_notifications true h d
            (s.notifications_apart k d);
      inference_apart = s.inference_apart;
      under = rw e tt;
    })
  ]

  discard_at-IsSound :
      (g : Saving Value) (f : SettingsForm Value)
      → f.saving ≡ g
      → IsSound plain f
      → IsSound plain (discard_at g f)
  discard_at-IsSound idle f e s = discard_idle-IsSound plain f s e
  discard_at-IsSound (first n i) f e s = s
  discard_at-IsSound (second n i) f e s = s

  pub discard-IsSound : (f : SettingsForm Value) → IsSound plain f → IsSound plain (discard f)
  unfolding discard
  discard-IsSound f s = discard_at-IsSound f.saving f refl s

  begin_save-Under :
      (n i : Object Value) (f : SettingsForm Value)
      → n ≡ f.dirty_notifications
      → i ≡ f.dirty_inference
      → ((k : Text) → is_inference k ≡ true → lookup k n ≡ none)
      → Under plain (begin_save n i) f
  begin_save-Under [] [] f hn hi apart = tt
  begin_save-Under [] (e ∷ i) f hn hi apart =
      (hi, apart, λ k p. ap (λ m. or_else (lookup k m) (lookup k f.row)) hn)
  begin_save-Under (e ∷ n) i f hn hi apart = (hn, hi)

  click_at-IsSound :
      (g : Saving Value) (f : SettingsForm Value)
      → f.saving ≡ g
      → IsSound plain f
      → IsSound plain (click_at g f)
  click_at-IsSound idle f e s = record {
    shows = s.shows;
    notifications_apart = s.notifications_apart;
    inference_apart = s.inference_apart;
    under =
        begin_save-Under f.dirty_notifications f.dirty_inference (click_at idle f) refl refl
          s.notifications_apart;
  }
  click_at-IsSound (first n i) f e s = s
  click_at-IsSound (second n i) f e s = s

  pub click_save-IsSound : (f : SettingsForm Value) → IsSound plain f → IsSound plain (click_save f)
  unfolding click_save
  click_save-IsSound f s = click_at-IsSound f.saving f refl s
