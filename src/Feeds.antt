-- ===== src/Feeds.antt =====
-- The choice of a feed's episodes. apps/web/src/app/feeds/_components/EpisodeSelectionStep.tsx: the
-- list with its filter; the two dialogs over it are in Feeds.Adding and Feeds.Extending. A set of
-- guids is the list of its elements in the order in which they were added.
pub mod Selection
pub mod Adding
pub mod Previews
pub mod Sent
pub mod Extending
mod Tests
use podlog.Base.{
  Bool, true, false, not, Option, none, some, List, [], ◌∷◌, ◌++◌, map, keep, any, Text, codes,
  text_eq, trim, is_empty, includes, if◌then◌else◌, ◌&&◌,
}

pub record EpisodePreview : Type 0 where
  pub guid : Text
  pub title : Option Text

pub record FeedPreview : Type 0 where
  pub title : Option Text
  pub episodes : List EpisodePreview

abbrev pub guids_of : List EpisodePreview → List Text
guids_of episodes = map (λ e. e.guid) episodes

abbrev pub has_guid : List Text → Text → Bool
has_guid set g = any (text_eq g) set

abbrev pub add_guid : Text → List Text → List Text
add_guid g set = if has_guid set g then set else set ++ g ∷ []

abbrev pub delete_guid : Text → List Text → List Text
delete_guid g set = keep (λ h. not (text_eq g h)) set

abbrev pub every_has : List Text → (scope : List Text) → Bool
every_has set [] = true
every_has set (g ∷ scope) = has_guid set g && every_has set scope

abbrev pub add_each : (scope : List Text) → List Text → List Text
add_each [] set = set
add_each (g ∷ scope) set = add_each scope (add_guid g set)

abbrev pub delete_each : (scope : List Text) → List Text → List Text
delete_each [] set = set
delete_each (g ∷ scope) set = delete_each scope (delete_guid g set)

unfoldable pub toggle_one : Text → List Text → List Text
toggle_one g set = if has_guid set g then delete_guid g set else add_guid g set

-- The bulk choice over `togglable`; nothing is done where that is empty.
unfoldable pub toggle_each : (togglable set : List Text) → List Text
toggle_each [] set = set
toggle_each (g ∷ togglable) set =
    if every_has set (g ∷ togglable)
    then delete_each (g ∷ togglable) set
    else add_each (g ∷ togglable) set

abbrev pub title_or_guid : EpisodePreview → Option Text → Text
title_or_guid e none = e.guid
title_or_guid e (some t) = t

module _ (lower : Text → Text) where
  abbrev pub is_in_view : (trimmed : Text) → EpisodePreview → Bool
  is_in_view trimmed e = includes (lower (title_or_guid e e.title)) trimmed

  -- The episodes that the filter leaves in view.
  unfoldable pub visible : (query : Text) → FeedPreview → List EpisodePreview
  visible query preview =
      let trimmed = lower (trim query) in
      if is_empty trimmed then preview.episodes else keep (is_in_view trimmed) preview.episodes

  -- What the bulk choice may touch.
  unfoldable pub togglable_visible :
      (add_more_mode : Bool) (existing : List Text) (query : Text) → FeedPreview → List Text
  togglable_visible add_more_mode existing query preview =
      if add_more_mode
      then guids_of (keep (λ e. not (has_guid existing e.guid)) (visible query preview))
      else guids_of (visible query preview)
