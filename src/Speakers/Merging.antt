-- ===== src/Speakers/Merging.antt =====
-- apps/web/src/app/api/episodes/[id]/speakers/merge/route.ts: merging speaker labels.
pub mod Atomic
use podlog.Base.{
  ℕ, Bool, true, false, not, ◌&&◌, Option, none, some, List, [], ◌∷◌, map, keep, any, length, Text,
  text_eq, is_empty, if◌then◌else◌,
}
use podlog.Merge.{
  Element, label, no_text, Field, text, items, other, MergeRequest, validate_merge_request,
}
use podlog.Speakers.{SegmentRow, NameRow, Store}
use podlog.Speakers.Transaction.{
  Db, Try, pure, ◌>>=◌, ◌>>◌, try_catch, query, begin, commit, rollback,
}

-- Which of the statements are answered.
pub record MergeAnswers : Type 0 where
  pub connect : Bool
  pub begin : Bool
  pub check : Bool
  pub reassign : Bool
  pub delete_names : Bool
  pub rebuild : Bool
  pub commit : Bool
  pub rollback : Bool

pub data MergeReply : Type 0 where
  invalid_json : MergeReply
  invalid : Text → MergeReply
  not_found : List Text → MergeReply
  failed : MergeReply
  merged : ℕ → MergeReply

-- `speaker_label = ANY(labels)`
abbrev pub labelled : List Text → Option Text → Bool
labelled labels none = false
labelled labels (some l) = any (text_eq l) labels

abbrev pub is_source : (episode_id : Text) (labels : List Text) → SegmentRow → Bool
is_source episode_id labels s = text_eq s.episode_id episode_id && labelled labels s.speaker_label

abbrev pub label_of : Option Text → Text
label_of none = []
label_of (some l) = l

abbrev pub found_labels : (episode_id : Text) (labels : List Text) → List SegmentRow → List Text
found_labels episode_id labels rows =
    map (λ s. label_of s.speaker_label) (keep (is_source episode_id labels) rows)

abbrev pub relabel :
    (episode_id : Text) (labels : List Text) (target : Text) → SegmentRow → SegmentRow
relabel episode_id labels target s =
    if is_source episode_id labels s then record s { speaker_label = some target } else s

abbrev pub is_orphan : (episode_id : Text) (labels : List Text) → NameRow → Bool
is_orphan episode_id labels n =
    text_eq n.episode_id episode_id && any (text_eq n.speaker_label) labels

-- `body as { ... }`, behind the validation.
abbrev pub texts_of : List Element → List Text
texts_of [] = []
texts_of (label s ∷ es) = s ∷ texts_of es
texts_of (no_text ∷ es) = texts_of es

abbrev pub source_labels_of : Field → List Text
source_labels_of (items es) = texts_of es
source_labels_of _ = []

abbrev pub target_label_of : Field → Text
target_label_of (text t) = t
target_label_of _ = []

module _ {Turns : Type 0}
    (rebuild_speaker_turns : (episode_id : Text) → List SegmentRow → Turns → Turns) where
  -- The statements that change the tables.
  abbrev pub reassign_segments :
      (episode_id : Text) (labels : List Text) (target : Text) → Store Turns → ℕ × Store Turns
  reassign_segments episode_id labels target s = (
    length (keep (is_source episode_id labels) s.segments),
    record s { segments = map (relabel episode_id labels target) s.segments },
  )

  abbrev pub delete_orphaned_names :
      (episode_id : Text) (labels : List Text) → Store Turns → Unit {0} × Store Turns
  delete_orphaned_names episode_id labels s = (
    tt,
    record s { speaker_names = keep (λ n. not (is_orphan episode_id labels n)) s.speaker_names },
  )

  abbrev pub rebuild_turns : (episode_id : Text) → Store Turns → Unit {0} × Store Turns
  rebuild_turns episode_id s =
      (tt, record s { turns = rebuild_speaker_turns episode_id s.segments s.turns })

  abbrev pub missing_labels : (all_labels found : List Text) → List Text
  missing_labels all_labels found = keep (λ l. not (any (text_eq l) found)) all_labels

  abbrev pub merge_found :
      MergeAnswers
      → (episode_id : Text) (sources : List Text) (target : Text) → Try (Store Turns) MergeReply
  merge_found answers episode_id sources target =
      query answers.reassign (reassign_segments episode_id sources target) >>= λ count.
      (query answers.delete_names (delete_orphaned_names episode_id sources)
        >> (query answers.rebuild (rebuild_turns episode_id)
            >> (commit answers.commit >> pure (merged count))))

  -- The body of `try`.
  unfoldable pub merge_transaction :
      MergeAnswers
      → (episode_id : Text) (sources : List Text) (target : Text) → Try (Store Turns) MergeReply
  merge_transaction answers episode_id sources target =
      begin answers.begin
      >> (query answers.check (λ s. (found_labels episode_id (target ∷ sources) s.segments, s))
          >>= λ found.
              let missing = missing_labels (target ∷ sources) found in
              (if is_empty missing
                then merge_found answers episode_id sources target
                else (rollback answers.rollback >> pure (not_found missing))))

  abbrev pub merge_valid :
      MergeAnswers
      → (episode_id : Text) (sources : List Text) (target : Text) → Try (Store Turns) MergeReply
  merge_valid answers episode_id sources target db =
      if answers.connect
      then try_catch (merge_transaction answers episode_id sources target)
          (rollback answers.rollback >> pure failed) db
      else (none, db)

  -- A body with the error of its validation, if any.
  abbrev pub merge_checked :
      Option Text → MergeAnswers → (episode_id : Text) → MergeRequest → Try (Store Turns) MergeReply
  merge_checked (some error) answers episode_id body = pure (invalid error)
  merge_checked none answers episode_id body =
      merge_valid answers episode_id (source_labels_of body.source_labels)
        (target_label_of body.target_label)

  -- `POST`. `none` is a body that is no JSON, and as a reply an error that the handler throws.
  unfoldable pub merge_speakers :
      MergeAnswers → (episode_id : Text) → Option MergeRequest → Try (Store Turns) MergeReply
  merge_speakers answers episode_id none = pure invalid_json
  merge_speakers answers episode_id (some body) =
      merge_checked (validate_merge_request body) answers episode_id body
