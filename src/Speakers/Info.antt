-- ===== src/Speakers/Info.antt =====
-- apps/web/src/components/SpeakerPanel.tsx: `deriveSpeakers`, the speakers of a transcript.
use podlog.Base.{
  ℕ, min, ◌+◌, Bool, true, false, not, ◌&&◌, ◌||◌, Option, none, some, List, [], ◌∷◌, drop, Text,
  codes, is_empty, is_prefix, present, ltb, if◌then◌else◌,
}
use podlog.Base.Digits.{digits_front, value}
use podlog.Base.Sort.{sort}
use podlog.Base.Assoc.{lookup, set_key, values}
use podlog.Speakers.{SpeakerRole, host, guest, other}
use podlog.Speakers.View.{Segment}

pub record SpeakerInfo : Type 0 where
  pub speaker_label : Text
  pub display_name : Text
  pub segment_count : ℕ
  pub inferred : Bool
  pub confirmed_by_user : Bool
  pub role : Option SpeakerRole
  pub needs_review : Bool

abbrev pub role_sort_key : Option SpeakerRole → ℕ
role_sort_key none = 3
role_sort_key (some host) = 0
role_sort_key (some guest) = 1
role_sort_key (some other) = 2

-- `a || b` on names.
abbrev pub name_or : Option Text → Text → Text
name_or none d = d
name_or (some s) d = if is_empty s then d else s

abbrev pub role_or : Option SpeakerRole → Option SpeakerRole → Option SpeakerRole
role_or (some r) new = some r
role_or none new = new

abbrev pub new_speaker : (speaker_label : Text) → Segment → SpeakerInfo
new_speaker speaker_label seg = record {
  speaker_label = speaker_label;
  display_name = name_or seg.display_name speaker_label;
  segment_count = 1;
  inferred = seg.inferred;
  confirmed_by_user = seg.confirmed_by_user;
  role = seg.role;
  needs_review = seg.needs_review;
}

abbrev pub seen_again : Segment → SpeakerInfo → SpeakerInfo
seen_again seg existing = record existing {
  display_name = name_or seg.display_name existing.display_name;
  segment_count = existing.segment_count + 1;
  inferred =
      not seg.confirmed_by_user
      && (existing.inferred || (seg.inferred && not existing.confirmed_by_user));
  confirmed_by_user = existing.confirmed_by_user || seg.confirmed_by_user;
  role = role_or existing.role seg.role;
  needs_review = existing.needs_review || seg.needs_review;
}

abbrev pub known_or_new : (speaker_label : Text) → Segment → Option SpeakerInfo → SpeakerInfo
known_or_new speaker_label seg none = new_speaker speaker_label seg
known_or_new speaker_label seg (some existing) = seen_again seg existing

abbrev pub derive_round :
    Option Text → Segment → List (Text × SpeakerInfo) → List (Text × SpeakerInfo)
derive_round none seg speakers = speakers
derive_round (some speaker_label) seg speakers =
    set_key speaker_label (known_or_new speaker_label seg (lookup speaker_label speakers)) speakers

-- The loop over the segments.
unfoldable pub derive_loop : List Segment → List (Text × SpeakerInfo) → List (Text × SpeakerInfo)
derive_loop [] speakers = speakers
derive_loop (seg ∷ segments) speakers =
    derive_loop segments (derive_round (present seg.speaker_label) seg speakers)

-- apps/web/src/lib/speakerColors.ts: `/SPEAKER_(\d+)/` on a label.
abbrev slot_here : Text → Option ℕ
slot_here s =
    let digits = digits_front (drop 8 s) in
    if is_prefix (codes "SPEAKER_") s && not (is_empty digits) then some (value digits) else none

unfoldable pub speaker_slot : Text → Option ℕ
speaker_slot [] = none
speaker_slot (c ∷ s) =
    let later = speaker_slot s in elim (slot_here (c ∷ s)) [ none ↦ later | some n ↦ some n ]

-- The place of a label's color in the palette of five.
unfoldable pub speaker_color : Text → ℕ
speaker_color speaker_label = elim (speaker_slot speaker_label) [ none ↦ 4 | some n ↦ min n 4 ]

-- `none` stands for -1.
abbrev pub slot_before : Option ℕ → Option ℕ → Bool
slot_before none none = false
slot_before none (some n) = true
slot_before (some m) none = false
slot_before (some m) (some n) = ltb m n

abbrev pub speaker_before : SpeakerInfo → SpeakerInfo → Bool
speaker_before a b =
    ltb (role_sort_key a.role) (role_sort_key b.role)
    || (not (ltb (role_sort_key b.role) (role_sort_key a.role))
        && slot_before (speaker_slot a.speaker_label) (speaker_slot b.speaker_label))

unfoldable pub derive_speakers : List Segment → List SpeakerInfo
derive_speakers segments = sort speaker_before (values (derive_loop segments []))
