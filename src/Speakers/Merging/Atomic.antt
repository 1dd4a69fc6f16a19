-- ===== src/Speakers/Merging/Atomic.antt =====
-- A merge is all or nothing.
use podlog.Base.{
  ◌≡◌, refl, Bool, true, false, not, ◌&&◌, Option, none, some, List, [], ◌∷◌, keep, length, Text,
  is_empty, arith, Bool-cases, Option-cases, inl, inr,
}
use podlog.Merge.{MergeRequest, validate_merge_request}
use podlog.Speakers.{SegmentRow, Store}
use podlog.Speakers.Transaction.{Db}
use podlog.Speakers.Merging.{
  MergeAnswers, MergeReply, merged, is_source, found_labels, source_labels_of, target_label_of,
  reassign_segments, delete_orphaned_names, rebuild_turns, missing_labels, merge_transaction,
  merge_valid, merge_speakers,
}

abbrev pub is_merged : Option MergeReply → Bool
is_merged (some (merged n)) = true
is_merged _ = false

abbrev pub is_open {ℓ} : {A : Type ℓ} → Option A → Bool
is_open none = false
is_open (some a) = true

-- Every statement but the rollback is answered.
abbrev pub all_answered : MergeAnswers → Bool
all_answered a =
    a.connect && a.begin && a.check && a.reassign && a.delete_names && a.rebuild && a.commit

abbrev pub is_accepted : Option MergeRequest → Bool
is_accepted none = false
is_accepted (some body) = not (is_open (validate_merge_request body))

abbrev pub sources_of : Option MergeRequest → List Text
sources_of none = []
sources_of (some body) = source_labels_of body.source_labels

abbrev pub target_of : Option MergeRequest → Text
target_of none = []
target_of (some body) = target_label_of body.target_label

module _ {Turns : Type 0}
    (rebuild_speaker_turns : (episode_id : Text) → List SegmentRow → Turns → Turns) where
  -- The tables after a merge.
  abbrev pub merged_store :
      (episode_id : Text) (sources : List Text) (target : Text) → Store Turns → Store Turns
  merged_store episode_id sources target s =
      (rebuild_turns rebuild_speaker_turns episode_id
        (delete_orphaned_names rebuild_speaker_turns episode_id sources
          (reassign_segments rebuild_speaker_turns episode_id sources target s).1).1).1

  -- The labels of the request that no segment of the episode has.
  abbrev pub unknown_labels :
      (episode_id : Text) (sources : List Text) (target : Text) → Store Turns → List Text
  unknown_labels episode_id sources target s =
      missing_labels rebuild_speaker_turns (target ∷ sources)
        (found_labels episode_id (target ∷ sources) s.segments)

  abbrev pub at_rest : Store Turns → Db (Store Turns)
  at_rest s = record { committed = s; working = none }

  -- A merge that is reported has taken place, with the reported number of segments; any other reply
  -- leaves the tables as they were, and no transaction open if the rollback is answered.
  abbrev pub IsOutcome :
      (rolls_back : Bool) (episode_id : Text) (sources : List Text) (target : Text)
      → Store Turns
      → Option MergeReply × Db (Store Turns)
      → Type 0
  IsOutcome rolls_back episode_id sources target s (some (merged n), db) =
      (n ≡ length (keep (is_source episode_id sources) s.segments))
      × (db ≡ at_rest (merged_store episode_id sources target s))
  IsOutcome rolls_back episode_id sources target s (_, db) =
      (db.committed ≡ s) × ((is_open db.working && rolls_back) ≡ false)

  merge_found-IsOutcome :
      (r d u c w : Bool) (episode_id : Text) (sources : List Text) (target : Text) (s : Store Turns)
      → let answers : MergeAnswers = record {
        connect = true;
        begin = true;
        check = true;
        reassign = r;
        delete_names = d;
        rebuild = u;
        commit = c;
        rollback = w;
      } in
        let missing = unknown_labels episode_id sources target s in
        let result =
          merge_valid rebuild_speaker_turns answers episode_id sources target (at_rest s) in
        is_empty missing ≡ true
        → (is_merged result.0 ≡ (r && d && u && c)) × IsOutcome w episode_id sources target s result
  unfolding merge_transaction
  merge_found-IsOutcome false d u c true episode_id sources target s h = rw h (refl, (refl, refl))
  merge_found-IsOutcome false d u c false episode_id sources target s h = rw h (refl, (refl, refl))
  merge_found-IsOutcome true false u c true episode_id sources target s h =
      rw h (refl, (refl, refl))
  merge_found-IsOutcome true false u c false episode_id sources target s h =
      rw h (refl, (refl, refl))
  merge_found-IsOutcome true true false c true episode_id sources target s h =
      rw h (refl, (refl, refl))
  merge_found-IsOutcome true true false c false episode_id sources target s h =
      rw h (refl, (refl, refl))
  merge_found-IsOutcome true true true false true episode_id sources target s h =
      rw h (refl, (refl, refl))
  merge_found-IsOutcome true true true false false episode_id sources target s h =
      rw h (refl, (refl, refl))
  merge_found-IsOutcome true true true true w episode_id sources target s h =
      rw h (refl, (refl, refl))

  merge_missing-IsOutcome :
      (r d u c w : Bool) (episode_id : Text) (sources : List Text) (target : Text) (s : Store Turns)
      → let answers : MergeAnswers = record {
        connect = true;
        begin = true;
        check = true;
        reassign = r;
        delete_names = d;
        rebuild = u;
        commit = c;
        rollback = w;
      } in
        let missing = unknown_labels episode_id sources target s in
        let result =
          merge_valid rebuild_speaker_turns answers episode_id sources target (at_rest s) in
        is_empty missing ≡ false
        → (is_merged result.0 ≡ (all_answered answers && is_empty missing))
          × IsOutcome w episode_id sources target s result
  unfolding merge_transaction
  merge_missing-IsOutcome r d u c true episode_id sources target s h =
      rw h (ground arith, (refl, refl))
  merge_missing-IsOutcome r d u c false episode_id sources target s h =
      rw h (ground arith, (refl, refl))

  merge_valid-IsOutcome :
      (n b k r d u c w : Bool) (episode_id : Text) (sources : List Text) (target : Text)
      (s : Store Turns)
      → let answers : MergeAnswers = record {
        connect = n;
        begin = b;
        check = k;
        reassign = r;
        delete_names = d;
        rebuild = u;
        commit = c;
        rollback = w;
      } in
        let missing = unknown_labels episode_id sources target s in
        let result =
          merge_valid rebuild_speaker_turns answers episode_id sources target (at_rest s) in
        (is_merged result.0 ≡ (all_answered answers && is_empty missing))
        × IsOutcome w episode_id sources target s result
  unfolding merge_transaction
  merge_valid-IsOutcome false b k r d u c w episode_id sources target s = (refl, (refl, refl))
  merge_valid-IsOutcome true false k r d u c true episode_id sources target s = (refl, (refl, refl))
  merge_valid-IsOutcome true false k r d u c false episode_id sources target s =
      (refl, (refl, refl))
  merge_valid-IsOutcome true true false r d u c true episode_id sources target s =
      (refl, (refl, refl))
  merge_valid-IsOutcome true true false r d u c false episode_id sources target s =
      (refl, (refl, refl))
  merge_valid-IsOutcome true true true r d u c w episode_id sources target s =
      elim (Bool-cases (is_empty (unknown_labels episode_id sources target s))) [
        | inl e ↦
            (let (p, q) = merge_found-IsOutcome r d u c w episode_id sources target s e in
              (ground (arith, e, p), q))
        | inr e ↦ merge_missing-IsOutcome r d u c w episode_id sources target s e
      ]

  -- From tables at rest, a merge is reported exactly where the request is accepted, every label of
  -- it is one of the episode, and every statement is answered. It has then taken place: the segments
  -- with a source label have the target's, as many as reported, the names of the sources are gone,
  -- and the turns are rebuilt from the segments. Whatever else happens, the tables are as they were,
  -- and no transaction stays open if the rollback is answered.
  pub merge_speakers-IsAtomic :
      (answers : MergeAnswers) (episode_id : Text) (body : Option MergeRequest) (s : Store Turns)
      → let sources = sources_of body in
        let target = target_of body in
        let result = merge_speakers rebuild_speaker_turns answers episode_id body (at_rest s) in
        (is_merged result.0 ≡ (
          is_accepted body
          && (all_answered answers && is_empty (unknown_labels episode_id sources target s))))
        × IsOutcome answers.rollback episode_id sources target s result
  unfolding merge_speakers
  merge_speakers-IsAtomic answers episode_id none s = (refl, (refl, refl))
  merge_speakers-IsAtomic answers episode_id (some body) s =
      elim (Option-cases (validate_merge_request body)) [
        | inl e ↦
            rw (e, is_open)
              (merge_valid-IsOutcome answers.connect answers.begin answers.check answers.reassign
                answers.delete_names answers.rebuild answers.commit answers.rollback episode_id
                (source_labels_of body.source_labels) (target_label_of body.target_label) s)
        | inr (error, e) ↦ rw (e, is_open) (refl, (refl, refl))
      ]
