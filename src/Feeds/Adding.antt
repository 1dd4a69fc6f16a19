-- ===== src/Feeds/Adding.antt =====
-- apps/web/src/app/feeds/page.tsx: the dialog that adds a feed, with the button of
-- _components/AddFeedStep1.tsx. The loads of a preview that were begun are kept in order, with their
-- addresses; a load's place among them stands for its AbortController.
use podlog.Base.{
  ℕ, Bool, true, false, not, ◌&&◌, ◌||◌, Option, none, some, List, [], ◌∷◌, ◌++◌, length, Text,
  trim, is_empty, ◌==◌, if◌then◌else◌,
}
use podlog.Feeds.{FeedPreview, toggle_one, toggle_each}

pub data AddMode : Type 0 where
  test full selective : AddMode

abbrev pub is_selective : AddMode → Bool
is_selective selective = true
is_selective _ = false

pub data PreviewReply : Type 0 where
  previewed : FeedPreview → PreviewReply
  unavailable : (message : Text) → PreviewReply

-- The body of the request that adds a feed.
pub record AddRequest : Type 0 where
  pub url : Text
  pub mode : AddMode
  pub selected_guids : Option (List Text)

pub record AddState : Type 0 where
  pub show_add_modal : Bool
  pub new_url : Text
  pub add_mode : AddMode
  pub add_error : Option Text
  pub preview_step : Bool
  pub preview : Option FeedPreview
  pub selected_guids : List Text
  pub preview_loading : Bool
  pub preview_request : Option ℕ
  pub adding : Bool
  pub begun : List Text

abbrev pub closed : AddState
closed = record {
  show_add_modal = false;
  new_url = [];
  add_mode = test;
  add_error = none;
  preview_step = false;
  preview = none;
  selected_guids = [];
  preview_loading = false;
  preview_request = none;
  adding = false;
  begun = [];
}

-- `beginPreview`, which cancels the load that runs.
abbrev pub begin_preview : (url : Text) → AddState → AddState
begin_preview url s = record s {
  preview_request = some (length s.begun);
  preview_loading = true;
  begun = s.begun ++ url ∷ [];
}

unfoldable pub open_modal : AddState → AddState
open_modal s = record s { show_add_modal = true }

unfoldable pub change_url : Text → AddState → AddState
change_url url s = record s { new_url = url }

unfoldable pub change_mode : AddMode → AddState → AddState
change_mode mode s = record s { add_mode = mode }

-- `resetModal`, with `cancelPreview`.
unfoldable pub reset_modal : AddState → AddState
reset_modal s = record s {
  preview_request = none;
  preview_loading = false;
  show_add_modal = false;
  new_url = [];
  add_mode = test;
  add_error = none;
  preview_step = false;
  preview = none;
  selected_guids = [];
}

abbrev pub add_request : AddState → AddRequest
add_request s = record {
  url = trim s.new_url;
  mode = s.add_mode;
  selected_guids = if is_selective s.add_mode then some s.selected_guids else none;
}

-- `handleAddOrPreview`, until its load, with the request that adds the feed, if one is sent.
unfoldable pub handle_add_or_preview : AddState → AddState × Option AddRequest
handle_add_or_preview s =
    if is_selective s.add_mode && not s.preview_step
    then (begin_preview (trim s.new_url) (record s { add_error = none }), none)
    else (record s { add_error = none; adding = true }, some (add_request s))

-- The button of the step that is shown.
abbrev pub is_disabled : AddState → Bool
is_disabled s =
    if s.preview_step then is_empty s.selected_guids || s.adding else s.adding || s.preview_loading

unfoldable pub submit_step : AddState → AddState × Option AddRequest
submit_step s = if is_disabled s then (s, none) else handle_add_or_preview s

abbrev pub is_request : Option ℕ → ℕ → Bool
is_request none id = false
is_request (some n) id = n == id

abbrev pub end_preview : PreviewReply → AddState → AddState
end_preview (previewed p) s = record s {
  preview = some p;
  preview_step = true;
  preview_request = none;
  preview_loading = false;
}
end_preview (unavailable message) s = record s {
  add_error = some message;
  preview_request = none;
  preview_loading = false;
}

-- `handleAddOrPreview`, from the end of a load on.
unfoldable pub hear_preview : (id : ℕ) → PreviewReply → AddState → AddState
hear_preview id reply s = if is_request s.preview_request id then end_preview reply s else s

-- `onBackOrCancel` of the second step.
unfoldable pub go_back : AddState → AddState
go_back s = record s { preview_step = false; preview = none; selected_guids = []; add_error = none }

unfoldable pub toggle_guid : Text → AddState → AddState
toggle_guid g s = record s { selected_guids = toggle_one g s.selected_guids }

abbrev pub toggle_shown : Option FeedPreview → (scope : List Text) → AddState → AddState
toggle_shown none scope s = s
toggle_shown (some p) scope s = record s { selected_guids = toggle_each scope s.selected_guids }

-- `toggleAll` with the guids that the step has in view.
unfoldable pub toggle_all : (scope : List Text) → AddState → AddState
toggle_all scope s = toggle_shown s.preview scope s

-- The answer of the request that adds the feed: `none` where it is taken.
abbrev pub hear_added : Option Text → AddState → AddState
hear_added none s = reset_modal (record s { adding = false })
hear_added (some message) s = record s { adding = false; add_error = some message }
