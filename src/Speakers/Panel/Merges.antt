-- ===== src/Speakers/Panel/Merges.antt =====
-- What the page shows behind a merge.
use podlog.Base.{
  ◌≡◌, refl, sym, ap, ◌∙◌, Bool, true, false, ◌&&◌, Option, none, some, List, [], ◌∷◌, map, any,
  find, All, Text, text_eq, is_empty, trim, arith, Bool-cases, Option-cases, if◌then◌else◌, inl,
  inr,
}
use mathlib.Core.Path.{subst}
use podlog.Base.Assoc.{text_eq_comm}
use podlog.Merge.{label, Field, items, is_blank, is_bad, validate_merge_request}
use podlog.Merge.Accepted.{any-is_bad, validate_merge_request-Mergeable}
use podlog.Speakers.{SegmentRow, Store}
use podlog.Speakers.Transaction.{Db}
use podlog.Speakers.Merging.{
  MergeAnswers, MergeReply, invalid_json, invalid, not_found, failed, merged, texts_of,
  found_labels, merge_speakers,
}
use podlog.Speakers.Merging.Atomic.{
  is_merged, is_open, all_answered, is_accepted, unknown_labels, merged_store, at_rest, IsOutcome,
  merge_speakers-IsAtomic,
}
use podlog.Speakers.View.{get_segments, names_target, handle_merged}
use podlog.Speakers.View.Merged.{without_role, HasName, shown, is_target, moved_to}
use podlog.Speakers.View.Moved.{map-view-moved, found_labels-target}
use podlog.Speakers.Panel.Shown.{is_lost}
use podlog.Speakers.Panel.{
  Trip, round, never_sent, reply_lost, PanelState, source_labels, merge_request, answered_merge,
  handle_merge,
}

texts_of-label : (ts : List Text) → texts_of (map label ts) ≡ ts
texts_of-label [] = refl
texts_of-label (t ∷ ts) = ap (◌∷◌ t) (texts_of-label ts)

source_labels-apart :
    (selected : List Text) (target : Text)
    → any (text_eq target) (source_labels selected target) ≡ false
source_labels-apart [] target = refl
source_labels-apart (l ∷ selected) target = elim (Bool-cases (text_eq l target)) [
  | inl e ↦ rw e (source_labels-apart selected target)
  | inr e ↦ rw (e, text_eq_comm target l ∙ e) (source_labels-apart selected target)
]

blank-empty : (l : Text) → is_blank l ≡ false → is_empty l ≡ false
unfolding trim
blank-empty [] h = ground arith
blank-empty (c ∷ l) h = refl

no_empty : (ts : List Text) → any is_blank ts ≡ false → any is_empty ts ≡ false
no_empty [] h = refl
no_empty (t ∷ ts) h = rw (blank-empty t (ground (arith, h))) (no_empty ts (ground (arith, h)))

abbrev is_bad_field : Field → Bool
is_bad_field (items es) = any is_bad es
is_bad_field _ = false

accepted-full :
    (selected : List Text) (target : Text)
    → is_accepted (some (merge_request selected target)) ≡ true
    → any is_empty (source_labels selected target) ≡ false
accepted-full selected target h =
    elim (Option-cases (validate_merge_request (merge_request selected target))) [
      | inl e ↦
          let m = (validate_merge_request-Mergeable (merge_request selected target)).0 e in
          no_empty (source_labels selected target) (
            sym (any-is_bad (source_labels selected target))
            ∙ (ap is_bad_field m.source_labels_are ∙ (any-is_bad m.sources ∙ m.no_blank_source)))
      | inr (error, e) ↦ (let k : false ≡ true = rw (e, is_open) at h in ground arith)
    ]

module _ {Turns : Type 0}
    (rebuild_speaker_turns : (episode_id : Text) → List SegmentRow → Turns → Turns) where
  unknown_labels-target :
      (e : Text) (sources : List Text) (target : Text) (s : Store Turns)
      → is_empty (unknown_labels rebuild_speaker_turns e sources target s) ≡ true
      → any (is_target e target s.speaker_names) s.segments ≡ true
  unknown_labels-target e sources target s h =
      elim (Bool-cases (any (text_eq target) (found_labels e (target ∷ sources) s.segments))) [
        | inl k ↦ found_labels-target e target (target ∷ sources) s.segments k
        | inr k ↦ (let contra : false ≡ true = rw k at h in ground arith)
      ]

  get_segments-merged_store :
      (e : Text) (sources : List Text) (target : Text) (s : Store Turns)
      → All HasName s.speaker_names
      → any (is_target e target s.speaker_names) s.segments ≡ true
      → any (text_eq target) sources ≡ false
      → any is_empty sources ≡ false
      → map without_role (handle_merged sources target (get_segments e s))
        ≡ map without_role (get_segments e (merged_store rebuild_speaker_turns e sources target s))
  unfolding handle_merged get_segments
  get_segments-merged_store e sources target s named there apart full =
      let t = find (names_target target) (shown e target s.speaker_names s.segments) in
      sym (
        map-view-moved e target sources s.speaker_names t s.segments
          (λ row m. moved_to e target s.speaker_names s.segments row m named there) apart full)

  reply-shows :
      (answers : MergeAnswers) (e target : Text) (panel : PanelState) (s : Store Turns)
      (reply : Option MergeReply) (db : Db (Store Turns))
      → let sources = source_labels panel.selected_labels target in
        All HasName s.speaker_names
        → is_merged reply ≡ (
            is_accepted (some (merge_request panel.selected_labels target))
            && (all_answered answers
                && is_empty (unknown_labels rebuild_speaker_turns e sources target s)))
        → IsOutcome rebuild_speaker_turns answers.rollback e sources target s (reply, db)
        → map without_role
            (answered_merge rebuild_speaker_turns round sources target reply
              (record panel { merge_error = none }, get_segments e s)).1
          ≡ map without_role (get_segments e db.committed)
  reply-shows answers e target panel s none db named p (q, r) =
      ap (λ t. map without_role (get_segments e t)) (sym q)
  reply-shows answers e target panel s (some invalid_json) db named p (q, r) =
      ap (λ t. map without_role (get_segments e t)) (sym q)
  reply-shows answers e target panel s (some (invalid error)) db named p (q, r) =
      ap (λ t. map without_role (get_segments e t)) (sym q)
  reply-shows answers e target panel s (some (not_found ls)) db named p (q, r) =
      ap (λ t. map without_role (get_segments e t)) (sym q)
  reply-shows answers e target panel s (some failed) db named p (q, r) =
      ap (λ t. map without_role (get_segments e t)) (sym q)
  reply-shows answers e target panel s (some (merged n)) db named p (q, r) =
      let sources = source_labels panel.selected_labels target in
      get_segments-merged_store e sources target s named
        (unknown_labels-target e sources target s (ground (arith, p)))
        (source_labels-apart panel.selected_labels target)
        (accepted-full panel.selected_labels target (ground (arith, p)))
      ∙ ap (λ (d : Db (Store Turns)). map without_role (get_segments e d.committed)) (sym r)

  merge_speakers-shows :
      (answers : MergeAnswers) (episode_id target : Text) (panel : PanelState) (s : Store Turns)
      → All HasName s.speaker_names
      → let (panel_behind, page, tables) =
          handle_merge rebuild_speaker_turns round answers episode_id target
            (panel, get_segments episode_id s, s) in
        map without_role page ≡ map without_role (get_segments episode_id tables)
  unfolding handle_merge
  merge_speakers-shows answers e target panel s named =
      let sources = source_labels panel.selected_labels target in
      let body = merge_request panel.selected_labels target in
      let result =
        merge_speakers rebuild_speaker_turns answers e (some body)
          (at_rest rebuild_speaker_turns s) in
      let (p, q) =
        subst
          (λ ts.
            (is_merged result.0 ≡ (
              is_accepted (some body)
              && (all_answered answers
                  && is_empty (unknown_labels rebuild_speaker_turns e ts target s))))
            × IsOutcome rebuild_speaker_turns answers.rollback e ts target s result)
          (texts_of-label sources)
          (merge_speakers-IsAtomic rebuild_speaker_turns answers e (some body) s) in
      elim (Bool-cases (is_empty sources)) [
        | inl k ↦ rw k refl
        | inr k ↦ rw k (reply-shows answers e target panel s result.0 result.1 named p q)
      ]

  -- Where no name in the tables is empty, a merge of the selected speakers, whatever statement of the
  -- route fails on the way, leaves the page showing the segments as they are in the tables, but for
  -- their roles, if it showed them so before, the request not being sent included. Only where the
  -- reply is lost behind the route, the page shows them as they were before the request, whatever
  -- the route has made of the tables.
  pub handle_merge-shows :
      (trip : Trip) (answers : MergeAnswers) (episode_id target : Text) (panel : PanelState)
      (s : Store Turns)
      → All HasName s.speaker_names
      → let (panel_behind, page, tables) =
          handle_merge rebuild_speaker_turns trip answers episode_id target
            (panel, get_segments episode_id s, s) in
        map without_role page
        ≡ map without_role (get_segments episode_id (if is_lost trip then s else tables))
  unfolding handle_merge
  handle_merge-shows round answers e target panel s named =
      merge_speakers-shows answers e target panel s named
  handle_merge-shows never_sent answers e target panel s named =
      elim (Bool-cases (is_empty (source_labels panel.selected_labels target))) [
        | inl k ↦ rw k refl
        | inr k ↦ rw k refl
      ]
  handle_merge-shows reply_lost answers e target panel s named =
      elim (Bool-cases (is_empty (source_labels panel.selected_labels target))) [
        | inl k ↦ rw k refl
        | inr k ↦ rw k refl
      ]
