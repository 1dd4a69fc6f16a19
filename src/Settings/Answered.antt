-- ===== src/Settings/Answered.antt =====
-- What the form shows: the answers of the requests, and every sequence of steps in which nothing is
-- edited while a save runs.
use podlog.Base.{
  ◌≡◌, refl, sym, ap, ◌∙◌, Bool, true, false, Option, none, [], ◌∷◌, Text, if◌then◌else◌,
}
use podlog.Base.Assoc.{lookup}
use podlog.Settings.{or_else, lookup-overlay}
use podlog.Settings.Form.{
  is_inference, SaveReply, taken, refused, lost, Object, Saving, idle, first, second, SettingsForm,
  loaded, handle_change, discard, then_second, click_save, answer_notifications, answer_inference,
  answer_at, answer,
}
use podlog.Settings.Shown.{or_else_idem, Under, expected, IsSound, loaded-IsSound}
use podlog.Settings.Kept.{handle_change-IsSound, discard-IsSound, click_save-IsSound}

module _ {Value : Type 0} (put : (row sent : Object Value) → Object Value)
    (view : Object Value → Object Value) (plain : Text → Bool)
    (put-keeps : (row sent : Object Value) (k : Text)
      → plain k ≡ true
      → lookup k (put row sent) ≡ or_else (lookup k sent) (lookup k row))
    (view-keeps : (row : Object Value) (k : Text)
      → plain k ≡ true
      → lookup k (view row) ≡ lookup k row) where
  then_second-Under :
      (n i : Object Value) (f : SettingsForm Value)
      → i ≡ f.dirty_inference
      → ((k : Text) → is_inference k ≡ true → lookup k n ≡ none)
      → ((k : Text)
          → plain k ≡ true
          → or_else (lookup k n) (lookup k f.row)
            ≡ or_else (lookup k f.dirty_notifications) (lookup k f.row))
      → Under plain (then_second n i) f
  then_second-Under n [] f hi apart same = tt
  then_second-Under n (e ∷ i) f hi apart same = (hi, apart, same)

  apart_of :
      (n m : Object Value)
      → n ≡ m
      → ((k : Text) → is_inference k ≡ true → lookup k m ≡ none)
      → (k : Text) → is_inference k ≡ true
      → lookup k n ≡ none
  apart_of n m e apart k h = ap (lookup k) e ∙ apart k h

  -- What is sent first is in the row once it is taken.
  put_again :
      (row n : Object Value) (k : Text)
      → plain k ≡ true
      → or_else (lookup k n) (lookup k (put row n)) ≡ lookup k (put row n)
  put_again row n k p =
      ap (or_else (lookup k n)) (put-keeps row n k p)
      ∙ (or_else_idem (lookup k n) (lookup k row) ∙ sym (put-keeps row n k p))

  answer_notifications-IsSound :
      (n i : Object Value) (reply : SaveReply) (f : SettingsForm Value)
      → n ≡ f.dirty_notifications
      → i ≡ f.dirty_inference
      → IsSound plain f
      → IsSound plain (answer_notifications put view n i reply f)
  answer_notifications-IsSound n i taken f hn hi s = record {
    shows = λ k p.
        lookup-overlay k (view (put f.row n)) i
        ∙ ap (λ m. or_else (lookup k m) (lookup k (view (put f.row n)))) hi;
    notifications_apart = λ k h. refl;
    inference_apart = s.inference_apart;
    under =
        then_second-Under n i (answer_notifications put view n i taken f) hi
          (apart_of n f.dirty_notifications hn s.notifications_apart) (put_again f.row n);
  }
  answer_notifications-IsSound n i refused f hn hi s = record {
    shows = s.shows;
    notifications_apart = s.notifications_apart;
    inference_apart = s.inference_apart;
    under =
        then_second-Under n i (answer_notifications put view n i refused f) hi
          (apart_of n f.dirty_notifications hn s.notifications_apart)
          (λ k p. ap (λ m. or_else (lookup k m) (lookup k f.row)) hn);
  }
  answer_notifications-IsSound n i (lost false) f hn hi s = record {
    shows = s.shows;
    notifications_apart = s.notifications_apart;
    inference_apart = s.inference_apart;
    under =
        then_second-Under n i (answer_notifications put view n i (lost false) f) hi
          (apart_of n f.dirty_notifications hn s.notifications_apart)
          (λ k p. ap (λ m. or_else (lookup k m) (lookup k f.row)) hn);
  }
  answer_notifications-IsSound n i (lost true) f hn hi s = record {
    shows = s.shows;
    notifications_apart = s.notifications_apart;
    inference_apart = s.inference_apart;
    under =
        then_second-Under n i (answer_notifications put view n i (lost true) f) hi
          (apart_of n f.dirty_notifications hn s.notifications_apart)
          (λ k p. ap (λ m. or_else (lookup k m) (lookup k (put f.row n))) hn);
  }

  over_both :
      (n i d o : Option Value) (b : Bool)
      → (b ≡ true → n ≡ none)
      → (b ≡ true → d ≡ none)
      → (b ≡ false → i ≡ none)
      → or_else n o ≡ or_else d o
      → or_else n (or_else i o) ≡ or_else d (or_else i o)
  over_both n i d o true hn hd hi e = rw (hn refl, hd refl) refl
  over_both n i d o false hn hd hi e = rw (hi refl) e

  answer_inference-IsSound :
      (n i : Object Value) (reply : SaveReply) (f : SettingsForm Value)
      → Under plain (second n i) f
      → IsSound plain f
      → IsSound plain (answer_inference put view n i reply f)
  answer_inference-IsSound n i taken f u s = record {
    shows = λ k p.
        lookup-overlay k (view (put f.row i)) n
        ∙ (ap (or_else (lookup k n)) (view-keeps (put f.row i) k p ∙ put-keeps f.row i k p)
            ∙ (over_both (lookup k n) (lookup k i) (lookup k f.dirty_notifications) (lookup k f.row)
                  (is_inference k) (u.1 k) (s.notifications_apart k)
                  (λ h. ap (lookup k) u.0 ∙ s.inference_apart k h) (u.2 k p)
                ∙ ap (or_else (lookup k f.dirty_notifications))
                    (sym (view-keeps (put f.row i) k p ∙ put-keeps f.row i k p))));
    notifications_apart = s.notifications_apart;
    inference_apart = λ k h. refl;
    under = tt;
  }
  answer_inference-IsSound n i refused f u s = record {
    shows = s.shows;
    notifications_apart = s.notifications_apart;
    inference_apart = s.inference_apart;
    under = tt;
  }
  answer_inference-IsSound n i (lost false) f u s = record {
    shows = s.shows;
    notifications_apart = s.notifications_apart;
    inference_apart = s.inference_apart;
    under = tt;
  }
  answer_inference-IsSound n i (lost true) f u s = record {
    shows = s.shows;
    notifications_apart = s.notifications_apart;
    inference_apart = s.inference_apart;
    under = tt;
  }

  answer_at-IsSound :
      (g : Saving Value) (reply : SaveReply) (f : SettingsForm Value)
      → Under plain g f
      → IsSound plain f
      → IsSound plain (answer_at put view g reply f)
  answer_at-IsSound idle reply f u s = s
  answer_at-IsSound (first n i) reply f u s = answer_notifications-IsSound n i reply f u.0 u.1 s
  answer_at-IsSound (second n i) reply f u s = answer_inference-IsSound n i reply f u s

  answer-IsSound :
      (reply : SaveReply) (f : SettingsForm Value)
      → IsSound plain f
      → IsSound plain (answer put view reply f)
  unfolding answer
  answer-IsSound reply f s = answer_at-IsSound f.saving reply f s.under s

-- A step of the form; nothing is edited while a save runs.
module _ {Value : Type 0} (put : (row sent : Object Value) → Object Value)
    (view : Object Value → Object Value) where
  pub data Step : SettingsForm Value → SettingsForm Value → Type 0 where
    edit :
        (f : SettingsForm Value) (field : Text) (value : Value)
        → f.saving ≡ idle
        → Step f (handle_change field value f)
    throw_away : (f : SettingsForm Value) → Step f (discard f)
    click : (f : SettingsForm Value) → Step f (click_save f)
    hear : (f : SettingsForm Value) (reply : SaveReply) → Step f (answer put view reply f)

  pub data Reach (s : SettingsForm Value) : SettingsForm Value → Type 0 where
    here : Reach s s
    next : {t u : SettingsForm Value} → Reach s t → Step t u → Reach s u

module _ {Value : Type 0} (put : (row sent : Object Value) → Object Value)
    (view : Object Value → Object Value) (plain : Text → Bool)
    (put-keeps : (row sent : Object Value) (k : Text)
      → plain k ≡ true
      → lookup k (put row sent) ≡ or_else (lookup k sent) (lookup k row))
    (view-keeps : (row : Object Value) (k : Text)
      → plain k ≡ true
      → lookup k (view row) ≡ lookup k row) where
  Step-IsSound : {f g : SettingsForm Value} → Step put view f g → IsSound plain f → IsSound plain g
  Step-IsSound (edit f field value e) s = handle_change-IsSound plain field value f e s
  Step-IsSound (throw_away f) s = discard-IsSound plain f s
  Step-IsSound (click f) s = click_save-IsSound plain f s
  Step-IsSound (hear f reply) s = answer-IsSound put view plain put-keeps view-keeps reply f s

  Reach-IsSound :
      {f g : SettingsForm Value} → IsSound plain f → Reach put view f g → IsSound plain g
  Reach-IsSound s here = s
  Reach-IsSound s (next r step) = Step-IsSound step (Reach-IsSound s r)

  -- Where the server's settings take at some keys what a request sends and keep the rest there,
  -- and its answers show them there as they are: in every run of the settings form from loaded
  -- settings in which nothing is edited while a save runs, the form shows at each of these keys
  -- the unsaved edit, or else what the server last confirmed, and no edit of one tab is counted
  -- there under the other.
  pub settings_shown :
      (row : Object Value) (f : SettingsForm Value)
      → Reach put view (loaded view row) f
      → (k : Text) → plain k ≡ true
      → (lookup k f.settings ≡ expected f k)
        × ((if is_inference k then lookup k f.dirty_notifications else lookup k f.dirty_inference)
            ≡ none)
  settings_shown row f r k p =
      let s = Reach-IsSound (loaded-IsSound plain view row) r in
      (
        s.shows k p,
        other_tab (is_inference k) (lookup k f.dirty_notifications) (lookup k f.dirty_inference)
            (s.notifications_apart k) (s.inference_apart k),
      )
    where
      other_tab :
          (b : Bool) (n i : Option Value)
          → (b ≡ true → n ≡ none)
          → (b ≡ false → i ≡ none)
          → (if b then n else i) ≡ none
      other_tab true n i hn hi = hn refl
      other_tab false n i hn hi = hi refl
