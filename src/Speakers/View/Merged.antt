-- ===== src/Speakers/View/Merged.antt =====
-- A merge, on the page and in the tables.
use podlog.Base.{
  ◌≡◌, refl, sym, ap, ◌∙◌, Bool, true, false, not, ◌&&◌, Option, none, some, List, [], ◌∷◌, map,
  keep, any, find, All, Text, text_eq, text_eq→eq, is_empty, present, arith, Bool-cases,
  Option-cases, inl, inr,
}
use podlog.Speakers.{SegmentRow, NameRow}
use podlog.Speakers.Naming.{is_name_of}
use podlog.Speakers.Merging.{is_orphan}
use podlog.Speakers.View.{
  Segment, name_of, view_with, view_segment, of_episode, has_label, names_target, moved,
}

abbrev pub without_role : Segment → Segment
without_role seg = record seg { role = none }

abbrev pub HasName : NameRow → Type 0
HasName n = is_empty n.display_name ≡ false

find-HasName :
    (p : NameRow → Bool) (names : List NameRow) (n : NameRow)
    → All HasName names
    → find p names ≡ some n
    → HasName n
find-HasName p [] n a h = ground arith
find-HasName p (m ∷ names) n (b, a) h = elim (Bool-cases (p m)) [
  | inl e ↦
      (let k : some m ≡ some n = rw e at h in
        let same : m ≡ n = ground (arith, k) in rw (sym same) b)
  | inr e ↦ find-HasName p names n a (rw e at h)
]

-- A name whose label is no source stays.
pub find-kept :
    (e : Text) (sources : List Text) (o : Text) (names : List NameRow)
    → any (text_eq o) sources ≡ false
    → find (is_name_of e o) (keep (λ n. not (is_orphan e sources n)) names)
      ≡ find (is_name_of e o) names
find-kept e sources o [] h = refl
find-kept e sources o (n ∷ names) h = elim (Bool-cases (is_name_of e o n)) [
  | inl k ↦
      let same : n.speaker_label ≡ o = text_eq→eq n.speaker_label o (ground (arith, k)) in
      let stays : is_orphan e sources n ≡ false = rw (same, h) (ground arith) in rw (stays, k) refl
  | inr k ↦ elim (Bool-cases (is_orphan e sources n)) [
    | inl gone ↦ rw (gone, k) (find-kept e sources o names h)
    | inr stays ↦ rw (stays, k) (find-kept e sources o names h)
  ]
]

present_of_text : (d : Text) → is_empty d ≡ false → present (some d) ≡ some d
present_of_text [] h = ground arith
present_of_text (c ∷ d) h = refl

has_label→eq :
    (target : Text) (label : Option Text) → has_label target label ≡ true → label ≡ some target
has_label→eq target none h = ground arith
has_label→eq target (some l) h = ap (λ (t : Text). some t) (sym (text_eq→eq target l h))

module _ (e target : Text) (names : List NameRow) where
  abbrev pub shown : List SegmentRow → List Segment
  shown rows = map (view_segment e names) (keep (of_episode e) rows)

  abbrev pub is_target : SegmentRow → Bool
  is_target row = of_episode e row && has_label target row.speaker_label

  -- The segment as the row's, with the target's name.
  abbrev named_as : NameRow → Segment → Segment
  named_as n seg = record seg {
    speaker_label = some target;
    display_name = some n.display_name;
    inferred = n.inferred;
    confirmed_by_user = n.confirmed_by_user;
    needs_review = n.needs_review;
  }

  names_target-other :
      (row : SegmentRow) (m : Option NameRow)
      → has_label target row.speaker_label ≡ false
      → names_target target (view_with row m) ≡ false
  names_target-other row none h = rw h refl
  names_target-other row (some n) h = rw h refl

  names_target-none : (row : SegmentRow) → names_target target (view_with row none) ≡ false
  names_target-none row = ground arith

  names_target-some :
      (row : SegmentRow) (n : NameRow)
      → has_label target row.speaker_label ≡ true
      → HasName n
      → names_target target (view_with row (some n)) ≡ true
  names_target-some row n h k = rw (h, present_of_text n.display_name k) refl

  find_named :
      (n : NameRow) (rows : List SegmentRow) (seg : Segment)
      → find (is_name_of e target) names ≡ some n
      → HasName n
      → any is_target rows ≡ true
      → moved target (find (names_target target) (shown rows)) seg ≡ named_as n seg
  find_named n [] seg h k a = ground arith
  find_named n (row ∷ rows) seg h k a = elim (Bool-cases (of_episode e row)) [
    | inl o ↦ elim (Bool-cases (has_label target row.speaker_label)) [
      | inl l ↦
          let name : name_of e names row.speaker_label ≡ some n =
            ap (name_of e names) (has_label→eq target row.speaker_label l) ∙ h in
          rw (o, name, names_target-some row n l k) refl
      | inr l ↦
          rw (o, names_target-other row (name_of e names row.speaker_label) l)
            (find_named n rows seg h k (rw (o, l) at a))
    ]
    | inr o ↦ rw o (find_named n rows seg h k (rw o at a))
  ]

  find_unnamed :
      (rows : List SegmentRow)
      → find (is_name_of e target) names ≡ none
      → find (names_target target) (shown rows) ≡ none
  find_unnamed [] h = refl
  find_unnamed (row ∷ rows) h = elim (Bool-cases (of_episode e row)) [
    | inl o ↦ elim (Bool-cases (has_label target row.speaker_label)) [
      | inl l ↦
          let name : name_of e names row.speaker_label ≡ none =
            ap (name_of e names) (has_label→eq target row.speaker_label l) ∙ h in
          rw (o, name, names_target-none row) (find_unnamed rows h)
      | inr l ↦
          rw (o, names_target-other row (name_of e names row.speaker_label) l) (find_unnamed rows h)
    ]
    | inr o ↦ rw o (find_unnamed rows h)
  ]

  moved_unnamed :
      (row : SegmentRow) (m : Option NameRow)
      → without_role (moved target none (view_with row m))
        ≡ without_role (view_with (record row { speaker_label = some target }) none)
  moved_unnamed row none = refl
  moved_unnamed row (some n) = refl

  moved_named :
      (row : SegmentRow) (n : NameRow) (m : Option NameRow)
      → without_role (named_as n (view_with row m))
        ≡ without_role (view_with (record row { speaker_label = some target }) (some n))
  moved_named row n none = refl
  moved_named row n (some m) = refl

  -- The segment that the page makes of a source's segment is the target's, but for the role.
  pub moved_to :
      (rows : List SegmentRow) (row : SegmentRow) (m : Option NameRow)
      → All HasName names
      → any is_target rows ≡ true
      → without_role (moved target (find (names_target target) (shown rows)) (view_with row m))
        ≡ without_role (
            view_with
              (record row { speaker_label = some target })
              (find (is_name_of e target) names))
  moved_to rows row m a t = elim (Option-cases (find (is_name_of e target) names)) [
    | inl h ↦ rw (find_unnamed rows h, h) (moved_unnamed row m)
    | inr (n, h) ↦
        rw
          (
            h,
            find_named n rows (view_with row m) h (find-HasName (is_name_of e target) names n a h)
                t,
          )
          (moved_named row n m)
  ]
