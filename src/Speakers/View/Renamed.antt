-- ===== src/Speakers/View/Renamed.antt =====
-- A name that is saved, on the page and in the database.
use podlog.Base.{
  ℕ, ◌≡◌, refl, sym, true, false, Option, none, some, List, [], ◌∷◌, map, find, Text, text_eq,
  text_eq_refl, text_eq→eq, arith, Bool-cases, inl, inr,
}
use podlog.Speakers.{SpeakerRole, SegmentRow, NameRow}
use podlog.Speakers.Naming.{is_name_of, upsert_name, chosen_role}
use podlog.Speakers.View.{view_with, view_segment, has_label, renamed}

-- The row that a name's request leaves.
abbrev saved_row :
    (episode_id label display_name : Text) → Option (Option SpeakerRole) → Option NameRow → NameRow
saved_row episode_id label display_name change none = record {
  episode_id = episode_id;
  speaker_label = label;
  display_name = display_name;
  inferred = false;
  confirmed_by_user = true;
  role = chosen_role change none;
  needs_review = false;
}
saved_row episode_id label display_name change (some n) = record n {
  display_name = display_name;
  inferred = false;
  confirmed_by_user = true;
  role = chosen_role change n.role;
  needs_review = false;
}

find-upsert_name_self :
    (episode_id label display_name : Text) (change : Option (Option SpeakerRole))
    (ns : List NameRow)
    → find (is_name_of episode_id label) (upsert_name episode_id label display_name change ns)
      ≡ some
          (saved_row episode_id label display_name change (find (is_name_of episode_id label) ns))
find-upsert_name_self e l d change [] = rw (text_eq_refl e, text_eq_refl l) refl
find-upsert_name_self e l d change (n ∷ ns) = elim (Bool-cases (is_name_of e l n)) [
  | inl h ↦ rw (h, h) refl
  | inr h ↦ rw (h, h) (find-upsert_name_self e l d change ns)
]

other_name :
    (episode_id label other : Text) (n : NameRow)
    → is_name_of episode_id label n ≡ true
    → text_eq label other ≡ false
    → is_name_of episode_id other n ≡ false
other_name e l o n k h =
    let same : n.speaker_label ≡ l = text_eq→eq n.speaker_label l (ground (arith, k)) in
    rw (same, h) (ground arith)

find-upsert_name_ne :
    (episode_id label other display_name : Text) (change : Option (Option SpeakerRole))
    (ns : List NameRow)
    → text_eq label other ≡ false
    → find (is_name_of episode_id other) (upsert_name episode_id label display_name change ns)
      ≡ find (is_name_of episode_id other) ns
find-upsert_name_ne e l o d change [] h = rw (text_eq_refl e, h) refl
find-upsert_name_ne e l o d change (n ∷ ns) h = elim (Bool-cases (is_name_of e l n)) [
  | inl k ↦ rw (k, other_name e l o n k h) refl
  | inr k ↦ rw (k, find-upsert_name_ne e l o d change ns h) refl
]

view-saved_row :
    (episode_id label new_name : Text) (row : SegmentRow) (n : Option NameRow)
    → view_with row (some (saved_row episode_id label new_name none n)) ≡ record (view_with row n) {
      speaker_label = row.speaker_label;
      display_name = some new_name;
      inferred = false;
      confirmed_by_user = true;
      needs_review = false;
    }
view-saved_row e l d row none = refl
view-saved_row e l d row (some n) = refl

pub view_with-label :
    (row : SegmentRow) (n : Option NameRow) → (view_with row n).speaker_label ≡ row.speaker_label
view_with-label row none = refl
view_with-label row (some n) = refl

view-renamed_at :
    (e l d : Text) (names : List NameRow) (episode_id : Text) (i : ℕ) (label : Option Text)
    (t : Text)
    → let row : SegmentRow = record {
      episode_id = episode_id;
      id = i;
      speaker_label = label;
      text = t;
    } in
      view_segment e (upsert_name e l d none names) row ≡ renamed l d (view_segment e names row)
view-renamed_at e l d names ep i none t = refl
view-renamed_at e l d names ep i (some o) t =
    let row : SegmentRow = record { episode_id = ep; id = i; speaker_label = some o; text = t } in
    let same = view_with-label row (find (is_name_of e o) names) in
    elim (Bool-cases (text_eq l o)) [
      | inl k ↦
          (let k' = text_eq→eq l o k in
            rw (same, has_label, k, sym k', find-upsert_name_self e l d none names)
              (view-saved_row e l d
                (record { episode_id = ep; id = i; speaker_label = some l; text = t })
                (find (is_name_of e l) names)))
      | inr k ↦ rw (same, has_label, k, find-upsert_name_ne e l o d none names k) refl
    ]

-- A row's segment behind a name's request, and the page's segment.
view-renamed :
    (episode_id label new_name : Text) (names : List NameRow) (row : SegmentRow)
    → view_segment episode_id (upsert_name episode_id label new_name none names) row
      ≡ renamed label new_name (view_segment episode_id names row)
view-renamed e l d names row =
    view-renamed_at e l d names row.episode_id row.id row.speaker_label row.text

pub map-view-renamed :
    (e l d : Text) (names : List NameRow) (rows : List SegmentRow)
    → map (view_segment e (upsert_name e l d none names)) rows
      ≡ map (renamed l d) (map (view_segment e names) rows)
map-view-renamed e l d names [] = refl
map-view-renamed e l d names (row ∷ rows) =
    rw (view-renamed e l d names row, map-view-renamed e l d names rows) refl
