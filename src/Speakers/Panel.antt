-- ===== src/Speakers/Panel.antt =====
-- apps/web/src/components/SpeakerPanel.tsx: the speakers of a transcript, and the requests that a
-- speaker's card sends. A page is what it shows; the tables are those behind the requests. The text that a card is being edited to, and the flags that are set while a request
-- runs, are not kept.
pub mod Shown
pub mod Merges
use podlog.Base.{
  ℕ, suc, ◌+◌, ◌-◌, Bool, true, false, not, ◌&&◌, ◌||◌, Option, none, some, List, [], ◌∷◌, ◌++◌,
  map, keep, any, join, Text, codes, text_eq, is_empty, trim, present, ltb, if◌then◌else◌,
}
use podlog.Merge.{label, Field, text, items, MergeRequest}
use podlog.Speakers.{SpeakerRole, host, guest, other, SegmentRow, Store}
use podlog.Speakers.Transaction.{Db}
use podlog.Speakers.Naming.{
  RoleField, absent, null, role_text, NameRequest, NameReply, saved, NameAnswers, name_speaker,
}
use podlog.Speakers.Merging.{
  MergeAnswers, MergeReply, invalid_json, invalid, not_found, failed, merged, merge_speakers,
}
use podlog.Speakers.Info.{SpeakerInfo}
use podlog.Speakers.View.{Segment, handle_renamed, handle_role_changed, handle_merged}

-- An inferred name, or one that a new run has put in doubt.
abbrev pub awaits_confirmation : SpeakerInfo → Bool
awaits_confirmation speaker =
    (speaker.inferred && not speaker.confirmed_by_user) || speaker.needs_review

-- `save`: the name that it sends, if any.
abbrev pub saved_name : SpeakerInfo → (value : Text) → Option Text
saved_name speaker value =
    let trimmed = trim value in
    if is_empty trimmed
    then none
    else if text_eq trimmed speaker.display_name && not (awaits_confirmation speaker)
    then none
    else some trimmed

-- `confirmInferredName`: the name that it sends, if any.
abbrev pub confirmed_name : SpeakerInfo → (saving : Bool) → Option Text
confirmed_name speaker saving =
    let trimmed = trim speaker.display_name in
    if is_empty trimmed || saving then none else some trimmed

abbrev pub is_saved : Option NameReply → Bool
is_saved (some saved) = true
is_saved _ = false

abbrev pub role_code : SpeakerRole → Text
role_code host = codes "host"
role_code guest = codes "guest"
role_code other = codes "other"

abbrev pub role_field : Option SpeakerRole → RoleField
role_field none = null
role_field (some r) = role_text (role_code r)

abbrev pub role_eq : Option SpeakerRole → Option SpeakerRole → Bool
role_eq none none = true
role_eq (some a) (some b) = text_eq (role_code a) (role_code b)
role_eq _ _ = false

-- `toggleSelection`, on a set as the list of its members.
abbrev pub toggle_selection : Text → List Text → List Text
toggle_selection chosen selected =
    if any (text_eq chosen) selected
    then keep (λ l. not (text_eq chosen l)) selected
    else selected ++ chosen ∷ []

-- The sources and the request of `handleMerge`.
abbrev pub source_labels : (selected : List Text) (target_label : Text) → List Text
source_labels selected target_label = keep (λ l. not (text_eq l target_label)) selected

abbrev pub merge_request : (selected : List Text) (target_label : Text) → MergeRequest
merge_request selected target_label = record {
  source_labels = items (map label (source_labels selected target_label));
  target_label = text target_label;
}

pub record PanelState : Type 0 where
  pub merge_mode : Bool
  pub selected_labels : List Text
  pub merge_error : Option Text

-- `exitMergeMode`
abbrev pub at_start : PanelState
at_start = record { merge_mode = false; selected_labels = []; merge_error = none }

-- `data.error || "Merge failed"`, where an error that the route throws has no JSON.
abbrev pub error_of : Option MergeReply → Text
error_of (some invalid_json) = codes "Invalid JSON"
error_of (some (invalid error)) = if is_empty error then codes "Merge failed" else error
error_of (some (not_found missing)) =
    codes "Labels not found in episode: " ++ join (codes ", ") missing
error_of (some failed) = codes "Failed to merge speakers"
error_of _ = codes "Merge failed"

-- What becomes of a request: the route has it and the page its reply, or `fetch` throws, without
-- the route having it, or behind the route, whose reply is lost.
pub data Trip : Type 0 where
  round never_sent reply_lost : Trip

abbrev pub is_round : Trip → Bool
is_round round = true
is_round _ = false

-- What the tables are, of what they were and what the route makes them.
abbrev pub tables_behind : {S : Type 0} → Trip → S → S → S
tables_behind never_sent before served = before
tables_behind round before served = served
tables_behind reply_lost before served = served

abbrev not_connected : Text
not_connected = codes "Merge failed — check your connection"

module _ {Turns : Type 0} where
  abbrev pub connection : Store Turns → Db (Store Turns)
  connection s = record { committed = s; working = none }

  module _ (lower : Text → Text) (now : ℕ) where
    -- A request that names a speaker, which a new connection serves. Where `fetch` throws, the page
    -- stays as it is.
    abbrev pub persist :
        Trip
        → NameAnswers
        → (episode_id : Text) → NameRequest
        → (shown : List Segment → List Segment) → List Segment × Store Turns
        → List Segment × Store Turns
    persist trip answers episode_id body shown (page, s) =
        let (reply, db) = name_speaker lower now answers episode_id (some body) (connection s) in
        (
          if is_round trip && is_saved reply then shown page else page,
          tables_behind trip s db.committed,
        )

    -- `persistDisplayName`
    unfoldable pub persist_display_name :
        Trip
        → NameAnswers
        → (episode_id speaker_label trimmed : Text) → List Segment × Store Turns
        → List Segment × Store Turns
    persist_display_name trip answers episode_id speaker_label trimmed =
        persist trip answers episode_id
          (record {
            speaker_label = some speaker_label;
            display_name = some trimmed;
            role = absent;
          })
          (handle_renamed speaker_label trimmed)

    -- `persistRole`, where no other role is being saved.
    unfoldable pub persist_role :
        Trip
        → NameAnswers
        → (episode_id : Text) → SpeakerInfo
        → Option SpeakerRole
        → List Segment × Store Turns
        → List Segment × Store Turns
    persist_role trip answers episode_id speaker next_role =
        let target : Option SpeakerRole =
          if role_eq speaker.role next_role then none else next_role in
        persist trip answers episode_id
          (record {
            speaker_label = some speaker.speaker_label;
            display_name = some speaker.display_name;
            role = role_field target;
          })
          (handle_role_changed speaker.speaker_label target)

  module _ (rebuild_speaker_turns : (episode_id : Text) → List SegmentRow → Turns → Turns) where
    -- The page behind the request, where the reply is one that came back or the request threw.
    abbrev pub answered_merge :
        Trip
        → (sources : List Text) (target : Text) → Option MergeReply
        → PanelState × List Segment
        → PanelState × List Segment
    answered_merge round sources target (some (merged n)) (panel, page) =
        (at_start, handle_merged sources target page)
    answered_merge round sources target reply (panel, page) =
        (record panel { merge_error = some (error_of reply) }, page)
    answered_merge never_sent sources target reply (panel, page) =
        (record panel { merge_error = some not_connected }, page)
    answered_merge reply_lost sources target reply (panel, page) =
        (record panel { merge_error = some not_connected }, page)

    -- `handleMerge`
    unfoldable pub handle_merge :
        Trip
        → MergeAnswers
        → (episode_id target : Text) → PanelState × List Segment × Store Turns
        → PanelState × List Segment × Store Turns
    handle_merge trip answers episode_id target (panel, page, s) =
        let sources = source_labels panel.selected_labels target in
        if is_empty sources
        then (panel, page, s)
        else (let (reply, db) =
              merge_speakers rebuild_speaker_turns answers episode_id
                (some (merge_request panel.selected_labels target)) (connection s) in
            let (panel_behind, page_behind) =
              answered_merge trip sources target reply
                (record panel { merge_error = none }, page) in
            (panel_behind, page_behind, tables_behind trip s db.committed))
