-- ===== src/Feeds/Extending.antt =====
-- apps/web/src/components/AddEpisodesDialog.tsx: the dialog that adds episodes to a feed that is
-- there, whose episodes are shown locked. It is mounted for one feed, and unmounted where it closes.
mod Kept
pub mod Picks
use podlog.Base.{
  Bool, true, false, not, Option, none, some, List, [], ◌∷◌, keep, Text, codes, is_empty,
  if◌then◌else◌,
}
use podlog.Feeds.{FeedPreview, guids_of, has_guid, add_each, toggle_one, toggle_each}

-- The answers of the two loads, of which both have to succeed.
pub data LoadReply : Type 0 where
  both_loaded : FeedPreview → (existing : List Text) → LoadReply
  not_loaded : (message : Text) → LoadReply

pub record MoreState : Type 0 where
  pub preview : Option FeedPreview
  pub existing_guids : List Text
  pub selected_guids : List Text
  pub loading : Bool
  pub error : Option Text
  pub cancelled : Bool

abbrev pub mounted : MoreState
mounted = record {
  preview = none;
  existing_guids = [];
  selected_guids = [];
  loading = true;
  error = none;
  cancelled = false;
}

abbrev pub end_load : LoadReply → MoreState → MoreState
end_load (both_loaded p existing) s = record s {
  preview = some p;
  existing_guids = add_each existing [];
  selected_guids = add_each existing [];
  loading = false;
}
end_load (not_loaded message) s = record s { error = some message; loading = false }

unfoldable pub hear_load : LoadReply → MoreState → MoreState
hear_load reply s = if s.cancelled then s else end_load reply s

unfoldable pub unmount : MoreState → MoreState
unmount s = record s { cancelled = true }

-- `newPicks`
abbrev pub new_picks : MoreState → List Text
new_picks s = keep (λ g. not (has_guid s.existing_guids g)) s.selected_guids

-- `handleSubmit`, with the guids that are sent, if any.
unfoldable pub submit_picks : MoreState → MoreState × Option (List Text)
submit_picks s =
    if is_empty (new_picks s)
    then (record s { error = some (codes "Select at least one new episode to add.") }, none)
    else (record s { error = none }, some (new_picks s))

unfoldable pub toggle_new : Text → MoreState → MoreState
toggle_new g s =
    if has_guid s.existing_guids g
    then s
    else record s { selected_guids = toggle_one g s.selected_guids }

abbrev pub toggle_in : Option FeedPreview → (scope : List Text) → MoreState → MoreState
toggle_in none scope s = s
toggle_in (some p) scope s = record s {
  selected_guids =
      toggle_each (keep (λ g. not (has_guid s.existing_guids g)) scope) s.selected_guids;
}

-- `toggleAll` with the guids that the step has in view.
unfoldable pub toggle_all_new : (scope : List Text) → MoreState → MoreState
toggle_all_new scope s = toggle_in s.preview scope s
