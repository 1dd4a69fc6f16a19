-- ===== src/Settings/Tests.antt =====
-- Runs of the settings form.
use podlog.Base.{
  Bool, not, text_eq, arith, ◌∙◌, zero, suc, map, All, trim, is_space, ◌≡◌, refl, true, false, none,
  some, List, [], ◌∷◌, ℕ, Text, codes,
}
use podlog.Base.Assoc.{lookup, set_key, lookup-set_key}
use podlog.Settings.{overlay, lookup-overlay}
use podlog.Settings.Form.{taken, Object, SettingsForm, loaded, handle_change, click_save, answer}
use podlog.Settings.{drop_key}
use podlog.Settings.Prompts.{PromptItem, PromptsState, StoreReply, stored, denied, load, save_all}
use podlog.Settings.Prompts.Drafts.{is_success, save_all-drafts}
use podlog.Settings.Answered.{Reach, here, next, edit, click, hear, settings_shown}

abbrev row : Object ℕ
row = (codes "smtp_port", 25) ∷ (codes "embedding_model", 1) ∷ []

abbrev token : Text
token = codes "telegram_bot_token"

-- The answer has the token masked.
abbrev masked : Object ℕ → Object ℕ
masked settings = set_key token 0 settings

abbrev is_unmasked : Text → Bool
is_unmasked k = not (text_eq token k)

masked-keeps :
    (settings : Object ℕ) (k : Text)
    → is_unmasked k ≡ true
    → lookup k (masked settings) ≡ lookup k settings
masked-keeps settings k p =
    lookup-set_key token k 0 settings
    ∙ (let e : text_eq token k ≡ false = ground (arith, p) in rw e refl)

-- A token and a model are edited, the bar's Save is clicked, and the first request is taken.
abbrev with_edits : SettingsForm ℕ
with_edits =
    handle_change (codes "embedding_model") 2 (handle_change token 123456 (loaded masked row))

abbrev half_saved : SettingsForm ℕ
half_saved = answer overlay masked taken (click_save with_edits)

half_saved-Reach : Reach overlay masked (loaded masked row) half_saved
unfolding handle_change
half_saved-Reach =
    next
      (next
        (next (next here (edit (loaded masked row) token 123456 refl))
          (edit (handle_change token 123456 (loaded masked row)) (codes "embedding_model") 2 refl))
        (click with_edits))
      (hear (click_save with_edits) taken)

half_saved-shows :
    (lookup (codes "embedding_model") half_saved.settings ≡ some 2)
    × (lookup (codes "embedding_model") half_saved.saved ≡ some 1)
    × (half_saved.dirty_notifications ≡ [])
unfolding handle_change click_save answer
half_saved-shows = (refl, refl, refl)

-- Behind the second request the form shows the token as it was typed, the server's answer has it
-- masked, and no edit of it is counted.
shows_token :
    (lookup token (answer overlay masked taken half_saved).settings ≡ some 123456)
    × (lookup token (answer overlay masked taken half_saved).saved ≡ some 0)
    × ((answer overlay masked taken half_saved).dirty_notifications ≡ [])
unfolding handle_change click_save answer
shows_token = (refl, refl, refl)

settings_shown_example :
    (lookup (codes "embedding_model") half_saved.settings ≡ some 2)
    × (lookup (codes "embedding_model") half_saved.dirty_notifications ≡ none)
unfolding handle_change click_save answer
settings_shown_example =
    settings_shown overlay masked is_unmasked (λ base top k p. lookup-overlay k base top)
      masked-keeps row half_saved half_saved-Reach (codes "embedding_model") refl

abbrev item_of : Text × Text → PromptItem
item_of (key, value) = record {
  key = key;
  label = key;
  description = [];
  value = value;
  default_value = [];
  is_overridden = true;
  updated_at = none;
}

abbrev texts : List (Text × Text)
texts = (codes "ask", codes "a") ∷ (codes "chat", codes "c") ∷ (codes "docs", codes "d") ∷ []

-- Two of three prompts are edited.
abbrev drafted : PromptsState
drafted = record {
  prompts = some (map item_of texts);
  drafts = (codes "chat", codes "C") ∷ (codes "ask", codes "A") ∷ (codes "docs", codes "d") ∷ [];
  busy_key = none;
  toast = none;
  load_error = false;
  saving_all = false;
}

-- The first request is taken, and the second is denied.
abbrev replies : ℕ → StoreReply
replies zero = stored
replies (suc i) = denied (some (codes "no"))

save_all-drafts_example :
    All {A = Text × Text}
      (λ (e : Text × Text). lookup e.0 drafted.drafts ≡ some e.1)
      ((codes "ask", codes "A") ∷ (codes "chat", codes "C") ∷ [])
    × ((save_all set_key drop_key (map item_of) true replies texts drafted).1
        ≡ (codes "ask", codes "A") ∷ (codes "chat", codes "c") ∷ (codes "docs", codes "d") ∷ [])
    × (lookup
          (codes "ask")
          (save_all set_key drop_key (map item_of) true replies texts drafted).0.drafts
        ≡ none)
    × (is_success (save_all set_key drop_key (map item_of) true replies texts drafted).0.toast
        ≡ false)
unfolding trim is_space
save_all-drafts_example =
    save_all-drafts set_key drop_key (map item_of) true replies texts drafted (codes "ask") refl

-- The error of a save that is stored in part is cleared by the load behind it.
partial_save : (save_all set_key drop_key (map item_of) true replies texts drafted).0.toast ≡ none
unfolding save_all load trim is_space
partial_save = refl
