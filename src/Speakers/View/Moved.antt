-- ===== src/Speakers/View/Moved.antt =====
-- The segments of an episode behind a merge, on the page and in the tables.
use podlog.Base.{
  ℕ, ◌≡◌, refl, sym, ap, ◌∙◌, true, false, not, ◌&&◌, ◌||◌, Option, none, some, List, [], ◌∷◌, map,
  keep, keep-yes, keep-no, any, find, Text, text_eq, text_eq→eq, is_empty, arith, Bool-cases, inl,
  inr,
}
use podlog.Speakers.{SegmentRow, NameRow}
use podlog.Speakers.Naming.{is_name_of}
use podlog.Speakers.Merging.{labelled, is_source, label_of, found_labels, relabel, is_orphan}
use podlog.Speakers.View.{
  Segment, view_with, view_segment, of_episode, has_label, is_among, moved, moved_if,
}
use podlog.Speakers.View.Renamed.{view_with-label}
use podlog.Speakers.View.Merged.{without_role, find-kept}

cons_eq {ℓ} : {A : Type ℓ} {x y : A} {xs ys : List A} → x ≡ y → xs ≡ ys → (x ∷ xs) ≡ (y ∷ ys)
cons_eq p q = rw (p, q) refl

relabel-keeps-episode :
    (e : Text) (sources : List Text) (target : Text) (row : SegmentRow)
    → of_episode e (relabel e sources target row) ≡ of_episode e row
relabel-keeps-episode e sources target row = elim (Bool-cases (is_source e sources row)) [
  | inl k ↦ rw k refl
  | inr k ↦ rw k refl
]

relabel-source :
    (e : Text) (sources : List Text) (target : Text) (row : SegmentRow)
    → is_source e sources row ≡ true
    → relabel e sources target row ≡ record row { speaker_label = some target }
relabel-source e sources target row h = rw h refl

relabel-other :
    (e : Text) (sources : List Text) (target : Text) (row : SegmentRow)
    → is_source e sources row ≡ false
    → relabel e sources target row ≡ row
relabel-other e sources target row h = rw h refl

moved_if-among :
    (sources : List Text) (target : Text) (t : Option Segment) (seg : Segment)
    → is_among sources seg.speaker_label ≡ true
    → moved_if sources target t seg ≡ moved target t seg
moved_if-among sources target t seg h = rw h refl

moved_if-other :
    (sources : List Text) (target : Text) (t : Option Segment) (seg : Segment)
    → is_among sources seg.speaker_label ≡ false
    → moved_if sources target t seg ≡ seg
moved_if-other sources target t seg h = rw h refl

source-full :
    (l : Text) (sources : List Text)
    → any (text_eq l) sources ≡ true
    → any is_empty sources ≡ false
    → is_empty l ≡ false
source-full l [] h k = ground arith
source-full l (s ∷ sources) h k = elim (Bool-cases (text_eq l s)) [
  | inl e ↦ ap is_empty (text_eq→eq l s e) ∙ ground (arith, k)
  | inr e ↦ source-full l sources (rw e at h) (ground (arith, k))
]

is_among-source :
    (l : Text) (sources : List Text)
    → any (text_eq l) sources ≡ true
    → any is_empty sources ≡ false
    → is_among sources (some l) ≡ true
is_among-source l sources h k = rw (source-full l sources h k, h) refl

is_among-other :
    (l : Text) (sources : List Text)
    → any (text_eq l) sources ≡ false
    → is_among sources (some l) ≡ false
is_among-other l sources h = rw h (ground arith)

module _ (e target : Text) (sources : List Text) (names : List NameRow) where
  abbrev pub kept_names : List NameRow
  kept_names = keep (λ n. not (is_orphan e sources n)) names

  -- What the page needs of the segment that it takes the target's name from.
  abbrev pub IsTargetSegment : Option Segment → Type 0
  IsTargetSegment t =
      (row : SegmentRow) (m : Option NameRow)
      → without_role (moved target t (view_with row m))
        ≡ without_role (
            view_with (record row { speaker_label = some target })
              (find (is_name_of e target) names))

  view-moved_at :
      (t : Option Segment) (ep : Text) (i : ℕ) (label : Option Text) (x : Text)
      → let row : SegmentRow = record {
        episode_id = ep;
        id = i;
        speaker_label = label;
        text = x;
      } in
        IsTargetSegment t
        → any (text_eq target) sources ≡ false
        → any is_empty sources ≡ false
        → of_episode e row ≡ true
        → without_role (view_segment e kept_names (relabel e sources target row))
          ≡ without_role (moved_if sources target t (view_segment e names row))
  view-moved_at t ep i none x h apart full o = rw o refl
  view-moved_at t ep i (some l) x h apart full o =
      let row : SegmentRow = record { episode_id = ep; id = i; speaker_label = some l; text = x } in
      let same = view_with-label row (find (is_name_of e l) names) in
      elim (Bool-cases (any (text_eq l) sources)) [
        | inl k ↦
            let among = ap (is_among sources) same ∙ is_among-source l sources k full in
            ap (λ r. without_role (view_segment e kept_names r))
              (relabel-source e sources target row (rw (o, k) refl))
            ∙ (ap (λ n. without_role (view_with (record row { speaker_label = some target }) n))
                  (find-kept e sources target names apart)
                ∙ (sym (h row (find (is_name_of e l) names))
                    ∙ ap without_role
                        (sym (moved_if-among sources target t (view_segment e names row) among))))
        | inr k ↦
            let other = ap (is_among sources) same ∙ is_among-other l sources k in
            ap (λ r. without_role (view_segment e kept_names r))
              (relabel-other e sources target row (rw k (ground arith)))
            ∙ (ap (λ n. without_role (view_with row n)) (find-kept e sources l names k)
                ∙ ap without_role
                    (sym (moved_if-other sources target t (view_segment e names row) other)))
      ]

  pub map-view-moved :
      (t : Option Segment) (rows : List SegmentRow)
      → IsTargetSegment t
      → any (text_eq target) sources ≡ false
      → any is_empty sources ≡ false
      → map without_role (
          map
            (view_segment e kept_names)
            (keep (of_episode e) (map (relabel e sources target) rows)))
        ≡ map without_role (
            map (moved_if sources target t) (map (view_segment e names) (keep (of_episode e) rows)))
  map-view-moved t [] h apart full = refl
  map-view-moved t (row ∷ rows) h apart full =
      let before =
        λ (rs : List SegmentRow). map without_role (map (view_segment e kept_names) rs) in
      let behind = λ (rs : List SegmentRow).
        map without_role (map (moved_if sources target t) (map (view_segment e names) rs)) in
      let row_behind = relabel e sources target row in
      let rows_behind = map (relabel e sources target) rows in
      let rest = map-view-moved t rows h apart full in
      let same = relabel-keeps-episode e sources target row in
      elim (Bool-cases (of_episode e row)) [
        | inl o ↦
            ap before (keep-yes (of_episode e) row_behind rows_behind (same ∙ o))
            ∙ (cons_eq
                  (view-moved_at t row.episode_id row.id row.speaker_label row.text h apart full o)
                  rest
                ∙ ap behind (sym (keep-yes (of_episode e) row rows o)))
        | inr o ↦
            ap before (keep-no (of_episode e) row_behind rows_behind (same ∙ o))
            ∙ (rest ∙ ap behind (sym (keep-no (of_episode e) row rows o)))
      ]

label_of-labelled :
    (target : Text) (labels : List Text) (label : Option Text)
    → labelled labels label ≡ true
    → text_eq target (label_of label) ≡ has_label target label
label_of-labelled target labels none h = ground arith
label_of-labelled target labels (some l) h = refl

-- A label that the request's check finds is one of the episode.
pub found_labels-target :
    (e target : Text) (labels : List Text) (rows : List SegmentRow)
    → any (text_eq target) (found_labels e labels rows) ≡ true
    → any (λ (row : SegmentRow). of_episode e row && has_label target row.speaker_label) rows ≡ true
found_labels-target e target labels [] h = h
found_labels-target e target labels (row ∷ rows) h = elim (Bool-cases (is_source e labels row)) [
  | inl k ↦
      let same = label_of-labelled target labels row.speaker_label (ground (arith, k)) in
      let there : (text_eq target (label_of row.speaker_label)
            || any (text_eq target) (found_labels e labels rows))
          ≡ true =
        rw k at h in
      elim (Bool-cases (has_label target row.speaker_label)) [
        | inl l ↦ rw l (ground (arith, k))
        | inr l ↦
            (let later = found_labels-target e target labels rows (rw (same, l) at there) in
              rw later (ground arith))
      ]
  | inr k ↦
      (let later = found_labels-target e target labels rows (rw k at h) in rw later (ground arith))
]
