-- ===== src/Settings/Form.antt =====
-- apps/web/src/components/NotificationSettings.tsx: what the form holds, the unsaved edits of its
-- two tabs, and a save of the bar with its requests. The settings in effect are on the other side of the
-- requests, with a default in place of each that is not stored: `put` gives them after a request that
-- is taken, and `view` what the route answers of them, in which it masks the secrets.
use podlog.Base.{
  Bool, true, Option, none, some, List, [], ◌∷◌, Text, codes, text_eq, any, is_empty, if◌then◌else◌,
}
use podlog.Base.Assoc.{lookup, set_key}
use podlog.Settings.{overlay, drop_key}

-- INFERENCE_FIELDS
abbrev pub inference_fields : List Text
inference_fields = codes "rag_local_model" ∷ codes "embedding_model" ∷ codes "pyannote_model" ∷ []

abbrev pub is_inference : Text → Bool
is_inference field = any (text_eq field) inference_fields

-- The answer of a request: it is taken, refused, or lost with or without being taken.
pub data SaveReply : Type 0 where
  taken refused : SaveReply
  lost : (was_taken : Bool) → SaveReply

module _ (Value : Type 0) where
  abbrev pub Object : Type 0
  Object = List (Text × Value)

  -- A save of the bar: the requests that are still to be answered, with the edits as they were when
  -- it began.
  pub data Saving : Type 0 where
    idle : Saving
    first : (notifications inference : Object) → Saving
    second : (notifications inference : Object) → Saving

  -- `row` is the settings in effect at the server.
  pub record SettingsForm : Type 0 where
    pub settings : Object
    pub saved : Object
    pub dirty_notifications : Object
    pub dirty_inference : Object
    pub saving : Saving
    pub row : Object

module _ {Value : Type 0} where
  -- The form when the row is loaded.
  abbrev pub loaded : (view : Object Value → Object Value) → Object Value → SettingsForm Value
  loaded view row = record {
    settings = view row;
    saved = view row;
    dirty_notifications = [];
    dirty_inference = [];
    saving = idle;
    row = row;
  }

  unfoldable pub handle_change : (field : Text) → Value → SettingsForm Value → SettingsForm Value
  handle_change field value f =
      if is_inference field
      then record f {
        settings = set_key field value f.settings;
        dirty_inference = set_key field value f.dirty_inference;
      }
      else record f {
        settings = set_key field value f.settings;
        dirty_notifications = set_key field value f.dirty_notifications;
      }

  -- The value of `saved` at a key, which is undefined where it has none.
  abbrev pub put_back : (key : Text) → Option Value → Object Value → Object Value
  put_back key none settings = drop_key key settings
  put_back key (some v) settings = set_key key v settings

  abbrev pub revert : (fields saved settings : Object Value) → Object Value
  revert [] saved settings = settings
  revert ((key, v) ∷ fields) saved settings =
      put_back key (lookup key saved) (revert fields saved settings)

  -- The bar's Discard, which does nothing while a save runs.
  abbrev pub discard_idle : SettingsForm Value → SettingsForm Value
  discard_idle f = record f {
    settings = revert f.dirty_inference f.saved (revert f.dirty_notifications f.saved f.settings);
    dirty_notifications = [];
    dirty_inference = [];
  }

  abbrev pub discard_at : Saving Value → SettingsForm Value → SettingsForm Value
  discard_at idle f = discard_idle f
  discard_at _ f = f

  unfoldable pub discard : SettingsForm Value → SettingsForm Value
  discard f = discard_at f.saving f

  -- What is sent behind the first request, or instead of it.
  abbrev pub then_second : (notifications inference : Object Value) → Saving Value
  then_second notifications inference =
      if is_empty inference then idle else second notifications inference

  abbrev pub begin_save : (notifications inference : Object Value) → Saving Value
  begin_save notifications inference =
      if is_empty notifications
      then then_second notifications inference
      else first notifications inference

  abbrev pub click_at : Saving Value → SettingsForm Value → SettingsForm Value
  click_at idle f = record f { saving = begin_save f.dirty_notifications f.dirty_inference }
  click_at _ f = f

  -- The bar's Save, which does nothing while a save runs.
  unfoldable pub click_save : SettingsForm Value → SettingsForm Value
  click_save f = click_at f.saving f

  module _ (put : (row sent : Object Value) → Object Value)
      (view : Object Value → Object Value) where
    -- `handleSaveNotifications`, from its answer on.
    abbrev pub answer_notifications :
        (notifications inference : Object Value)
        → SaveReply
        → SettingsForm Value
        → SettingsForm Value
    answer_notifications notifications inference taken f = record f {
      settings = overlay (view (put f.row notifications)) inference;
      saved = view (put f.row notifications);
      dirty_notifications = [];
      saving = then_second notifications inference;
      row = put f.row notifications;
    }
    answer_notifications notifications inference (lost true) f = record f {
      saving = then_second notifications inference;
      row = put f.row notifications;
    }
    answer_notifications notifications inference _ f = record f {
      saving = then_second notifications inference;
    }

    -- `handleSaveInference`, from its answer on.
    abbrev pub answer_inference :
        (notifications inference : Object Value)
        → SaveReply
        → SettingsForm Value
        → SettingsForm Value
    answer_inference notifications inference taken f = record f {
      settings = overlay (view (put f.row inference)) notifications;
      saved = view (put f.row inference);
      dirty_inference = [];
      saving = idle;
      row = put f.row inference;
    }
    answer_inference notifications inference (lost true) f = record f {
      saving = idle;
      row = put f.row inference;
    }
    answer_inference notifications inference _ f = record f { saving = idle }

    abbrev pub answer_at : Saving Value → SaveReply → SettingsForm Value → SettingsForm Value
    answer_at idle reply f = f
    answer_at (first notifications inference) reply f =
        answer_notifications notifications inference reply f
    answer_at (second notifications inference) reply f =
        answer_inference notifications inference reply f

    unfoldable pub answer : SaveReply → SettingsForm Value → SettingsForm Value
    answer reply f = answer_at f.saving reply f
