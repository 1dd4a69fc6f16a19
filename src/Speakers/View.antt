-- ===== src/Speakers/View.antt =====
-- apps/web/src/lib/episodeData.ts, and apps/web/src/components/TranscriptSection.tsx: the segments
-- that the transcript page shows, and what it does to them behind a change of their speakers.
pub mod Renamed
pub mod Merged
pub mod Moved
use podlog.Base.{
  ℕ, Bool, true, false, not, ◌&&◌, ◌||◌, Option, none, some, List, [], ◌∷◌, map, keep, any, find,
  Text, text_eq, is_empty, present, if◌then◌else◌,
}
use podlog.Base.Sort.{sort}
use podlog.Speakers.{SpeakerRole, SegmentRow, NameRow, Store}
use podlog.Speakers.Naming.{is_name_of}
use podlog.Speakers.Dismissal.{is_used}

pub record Segment : Type 0 where
  pub id : ℕ
  pub speaker_label : Option Text
  pub display_name : Option Text
  pub inferred : Bool
  pub confirmed_by_user : Bool
  pub role : Option SpeakerRole
  pub needs_review : Bool
  pub text : Text

pub record UnmatchedSpeakerName : Type 0 where
  pub speaker_label : Text
  pub display_name : Text

-- `LEFT JOIN speaker_names`: the key makes the row unique.
abbrev pub name_of : (episode_id : Text) → List NameRow → Option Text → Option NameRow
name_of episode_id names none = none
name_of episode_id names (some label) = find (is_name_of episode_id label) names

abbrev pub view_with : SegmentRow → Option NameRow → Segment
view_with s none = record {
  id = s.id;
  speaker_label = s.speaker_label;
  display_name = none;
  inferred = false;
  confirmed_by_user = false;
  role = none;
  needs_review = false;
  text = s.text;
}
view_with s (some n) = record {
  id = s.id;
  speaker_label = s.speaker_label;
  display_name = some n.display_name;
  inferred = n.inferred;
  confirmed_by_user = n.confirmed_by_user;
  role = n.role;
  needs_review = n.needs_review;
  text = s.text;
}

abbrev pub view_segment : (episode_id : Text) → List NameRow → SegmentRow → Segment
view_segment episode_id names s = view_with s (name_of episode_id names s.speaker_label)

abbrev pub of_episode : (episode_id : Text) → SegmentRow → Bool
of_episode episode_id s = text_eq s.episode_id episode_id

abbrev pub is_unmatched : (episode_id : Text) → List SegmentRow → NameRow → Bool
is_unmatched episode_id rows n =
    text_eq n.episode_id episode_id
    && n.confirmed_by_user
    && not (is_used episode_id n.speaker_label rows)

module _ {Turns : Type 0} where
  unfoldable pub get_segments : (episode_id : Text) → Store Turns → List Segment
  get_segments episode_id s =
      map (view_segment episode_id s.speaker_names) (keep (of_episode episode_id) s.segments)

  -- `label_before` is the order of the labels in the database.
  unfoldable pub get_unmatched_speaker_names :
      (label_before : Text → Text → Bool) (episode_id : Text)
      → Store Turns
      → List UnmatchedSpeakerName
  get_unmatched_speaker_names label_before episode_id s =
      map
        (λ (n : NameRow). record { speaker_label = n.speaker_label; display_name = n.display_name })
        (sort (λ (a b : NameRow). label_before a.speaker_label b.speaker_label)
          (keep (is_unmatched episode_id s.segments) s.speaker_names))

-- `seg.speaker_label === label`
abbrev pub has_label : Text → Option Text → Bool
has_label label none = false
has_label label (some l) = text_eq label l

abbrev pub renamed : (label new_name : Text) → Segment → Segment
renamed label new_name seg =
    if has_label label seg.speaker_label
    then record seg {
      display_name = some new_name;
      inferred = false;
      confirmed_by_user = true;
      needs_review = false;
    }
    else seg

unfoldable pub handle_renamed : (label new_name : Text) → List Segment → List Segment
handle_renamed label new_name segments = map (renamed label new_name) segments

abbrev pub with_role : (label : Text) → Option SpeakerRole → Segment → Segment
with_role label role seg =
    if has_label label seg.speaker_label
    then record seg { role = role; needs_review = false }
    else seg

unfoldable pub handle_role_changed :
    (label : Text) → Option SpeakerRole → List Segment → List Segment
handle_role_changed label role segments = map (with_role label role) segments

-- `seg.speaker_label && sourceLabels.includes(seg.speaker_label)`
abbrev pub is_among : (labels : List Text) → Option Text → Bool
is_among labels none = false
is_among labels (some l) = not (is_empty l) && any (text_eq l) labels

-- `s.speaker_label === targetLabel && s.display_name`
abbrev pub names_target : (target : Text) → Segment → Bool
names_target target s =
    has_label target s.speaker_label
    && elim (present s.display_name) [ none ↦ false | some _ ↦ true ]

-- The segment, as it is shown for the target's segment.
abbrev pub moved : (target : Text) → Option Segment → Segment → Segment
moved target none seg = record seg {
  speaker_label = some target;
  display_name = none;
  inferred = false;
  confirmed_by_user = false;
  needs_review = false;
}
moved target (some t) seg = record seg {
  speaker_label = some target;
  display_name = t.display_name;
  inferred = t.inferred;
  confirmed_by_user = t.confirmed_by_user;
  needs_review = t.needs_review;
}

abbrev pub moved_if : (sources : List Text) (target : Text) → Option Segment → Segment → Segment
moved_if sources target target_seg seg =
    if is_among sources seg.speaker_label then moved target target_seg seg else seg

-- The segments; `active_behind` is the filter.
unfoldable pub handle_merged : (sources : List Text) (target : Text) → List Segment → List Segment
handle_merged sources target prev =
    map (moved_if sources target (find (names_target target) prev)) prev

abbrev pub active_behind : (sources : List Text) (target : Text) → Option Text → Option Text
active_behind sources target active = if is_among sources active then some target else active

-- `onUnmatchedDismissed`
abbrev pub handle_dismissed : (label : Text) → List UnmatchedSpeakerName → List UnmatchedSpeakerName
handle_dismissed label names =
    keep (λ (n : UnmatchedSpeakerName). not (text_eq n.speaker_label label)) names
