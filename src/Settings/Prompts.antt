-- ===== src/Settings/Prompts.antt =====
-- apps/web/src/components/PromptsSection.tsx: the drafts of the prompts, and the requests that store
-- them. The rows are on the other side of the requests: `put` stores a text, `reset` takes it back,
-- and `listed` is what a load answers. The operations are called one after the other.
pub mod Drafts
use podlog.Base.{
  ℕ, ◌+◌, Bool, true, false, not, ◌&&◌, Option, none, some, List, [], ◌∷◌, map, any, length, Text,
  codes, text_eq, trim, is_empty, ◌==◌, if◌then◌else◌,
}
use podlog.Base.Assoc.{lookup, set_key}
use podlog.Settings.{drop_key}

pub record PromptItem : Type 0 where
  pub key : Text
  pub label : Text
  pub description : Text
  pub value : Text
  pub default_value : Text
  pub is_overridden : Bool
  pub updated_at : Option Text

pub record ToastMsg : Type 0 where
  pub message : Text
  pub is_error : Bool

pub record PromptsState : Type 0 where
  pub prompts : Option (List PromptItem)
  pub drafts : List (Text × Text)
  pub busy_key : Option Text
  pub toast : Option ToastMsg
  pub load_error : Bool
  pub saving_all : Bool

-- The answer of a request that stores: taken, refused with a reason or without, or lost.
pub data StoreReply : Type 0 where
  stored : StoreReply
  denied : (detail : Option Text) → StoreReply
  dropped : (was_stored : Bool) → StoreReply

abbrev pub success : Text → Option ToastMsg
success message = some (record { message = message; is_error = false })

abbrev pub failure : Text → Option ToastMsg
failure message = some (record { message = message; is_error = true })

-- `err.detail || message`
abbrev pub detail_or : Option Text → Text → Text
detail_or none message = message
detail_or (some []) message = message
detail_or (some (c ∷ s)) message = c ∷ s

abbrev pub without_error : Option ToastMsg → Option ToastMsg
without_error none = none
without_error (some t) = if t.is_error then none else some t

abbrev pub delete_keys : List Text → List (Text × Text) → List (Text × Text)
delete_keys [] drafts = drafts
delete_keys (k ∷ keys) drafts = delete_keys keys (drop_key k drafts)

abbrev pub if_edited : PromptItem → Option Text → List (Text × Text) → List (Text × Text)
if_edited p none rest = rest
if_edited p (some v) rest = if text_eq v p.value then rest else (p.key, v) ∷ rest

-- `edited`: the keys of the prompts whose draft is another text, with the drafts.
abbrev pub edited_of : List PromptItem → (drafts : List (Text × Text)) → List (Text × Text)
edited_of [] drafts = []
edited_of (p ∷ ps) drafts = if_edited p (lookup p.key drafts) (edited_of ps drafts)

abbrev pub list_or : Option (List PromptItem) → List PromptItem
list_or none = []
list_or (some ps) = ps

abbrev pub edited : PromptsState → List (Text × Text)
edited s = edited_of (list_or s.prompts) s.drafts

-- The bar's Discard, and an edit of a prompt's field.
unfoldable pub discard_drafts : PromptsState → PromptsState
discard_drafts s = record s { drafts = [] }

unfoldable pub edit_draft : (key value : Text) → PromptsState → PromptsState
edit_draft key value s = record s { drafts = set_key key value s.drafts }

abbrev pub draft_or : Option Text → Text → Text
draft_or none value = value
draft_or (some v) value = v

-- How the requests of `saveAll` end.
pub data SaveEnding : Type 0 where
  complete : SaveEnding
  stopped : (detail : Option Text) → SaveEnding
  broken : SaveEnding

pub record Requests (Rows : Type 0) : Type 0 where
  pub rows : Rows
  pub taken : List (Text × Text)
  pub ending : SaveEnding

abbrev pub key_of : List (Text × Text) → List Text
key_of entries = map (λ e. e.0) entries

module _ {Rows : Type 0} (put : (key value : Text) → Rows → Rows)
    (reset_row : (key : Text) → Rows → Rows) (listed : Rows → List PromptItem) where
  -- `load`; `ok` is whether the rows are answered.
  unfoldable pub load : (ok : Bool) → (settled : List Text) → Rows → PromptsState → PromptsState
  load true settled rows s = record s {
    prompts = some (listed rows);
    drafts = delete_keys settled s.drafts;
    load_error = false;
    toast = without_error s.toast;
  }
  load false settled rows s = record s {
    load_error = true;
    toast = failure (codes "Failed to load prompts");
  }

  -- `save`, from the answer of its request on.
  abbrev pub saved_one :
      (ok : Bool) → (key value : Text) → StoreReply → Rows → PromptsState → PromptsState × Rows
  saved_one ok key value stored rows s =
      let r = load ok (key ∷ []) (put key value rows) s in
      (record r { toast = success (codes "Prompt saved"); busy_key = none }, put key value rows)
  saved_one ok key value (denied detail) rows s =
      (record s { toast = failure (detail_or detail (codes "Save failed")); busy_key = none }, rows)
  saved_one ok key value (dropped was_stored) rows s = (
    record s { toast = failure (codes "Network error"); busy_key = none },
    if was_stored then put key value rows else rows,
  )

  unfoldable pub save :
      (ok : Bool) → StoreReply → PromptItem → Rows → PromptsState → PromptsState × Rows
  save ok reply p rows s =
      let value = draft_or (lookup p.key s.drafts) p.value in
      if is_empty (trim value)
      then (record s { toast = failure (codes "Prompt cannot be empty") }, rows)
      else saved_one ok p.key value reply rows (record s { busy_key = some p.key })

  -- `reset`
  unfoldable pub reset :
      (ok : Bool) → StoreReply → PromptItem → Rows → PromptsState → PromptsState × Rows
  reset ok stored p rows s =
      let r = load ok (p.key ∷ []) (reset_row p.key rows) s in
      (
        record r { toast = success (codes "Reset to default"); busy_key = none },
        reset_row p.key rows,
      )
  reset ok (denied detail) p rows s = (
    record s { toast = failure (detail_or detail (codes "Reset failed")); busy_key = none },
    rows,
  )
  reset ok (dropped was_stored) p rows s = (
    record s { toast = failure (codes "Network error"); busy_key = none },
    if was_stored then reset_row p.key rows else rows,
  )

  abbrev pub sent_one :
      StoreReply → (entry : Text × Text) → Rows → (Rows → Requests Rows) → Requests Rows
  sent_one stored (key, value) rows rest =
      let r = rest (put key value rows) in record r { taken = (key, value) ∷ r.taken }
  sent_one (denied detail) entry rows rest = record {
    rows = rows;
    taken = [];
    ending = stopped detail;
  }
  sent_one (dropped was_stored) (key, value) rows rest = record {
    rows = if was_stored then put key value rows else rows;
    taken = [];
    ending = broken;
  }

  -- The loop of `saveAll`; `reply i` is the answer of the i-th request.
  abbrev pub send_each :
      (reply : ℕ → StoreReply) → (i : ℕ) → List (Text × Text) → Rows → Requests Rows
  send_each reply i [] rows = record { rows = rows; taken = []; ending = complete }
  send_each reply i (entry ∷ entries) rows =
      sent_one (reply i) entry rows (send_each reply (i + 1) entries)

  abbrev pub end_all :
      (ok : Bool) → SaveEnding → (taken : List (Text × Text)) → Rows → PromptsState → PromptsState
  end_all ok complete taken rows s =
      let r = load ok (key_of taken) rows s in
      record r {
        toast = success (if length taken == 1 then codes "Prompt saved" else codes "Prompts saved");
        saving_all = false;
      }
  end_all ok (stopped detail) [] rows s = record s {
    toast = failure (detail_or detail (codes "Save failed"));
    saving_all = false;
  }
  end_all ok (stopped detail) (e ∷ taken) rows s =
      let r =
        load ok (key_of (e ∷ taken)) rows
          (record s { toast = failure (detail_or detail (codes "Save failed")) }) in
      record r { saving_all = false }
  end_all ok broken taken rows s = record s {
    toast = failure (codes "Network error");
    saving_all = false;
  }

  -- `saveAll`
  unfoldable pub save_all :
      (ok : Bool) → (reply : ℕ → StoreReply) → Rows → PromptsState → PromptsState × Rows
  save_all ok reply rows s =
      let sent = send_each reply 0 (edited s) rows in
      if any (λ e. is_empty (trim e.1)) (edited s)
      then (record s { toast = failure (codes "Prompt cannot be empty") }, rows)
      else (end_all ok sent.ending sent.taken sent.rows (record s { saving_all = true }), sent.rows)
