-- ===== src/Speakers/Tests.antt =====
-- An episode with two speakers.
use podlog.Base.{
  if◌then◌else◌, ℕ, ◌≡◌, refl, true, false, ◌&&◌, none, some, List, [], ◌∷◌, map, length, Text,
  codes, is_empty, trim,
}
use podlog.Merge.{label, text, items, MergeRequest}
use podlog.Speakers.{host, SegmentRow, NameRow, Store}
use podlog.Speakers.Naming.{NameAnswers}
use podlog.Speakers.Merging.{MergeAnswers, merge_speakers}
use podlog.Speakers.Merging.Atomic.{
  is_merged, all_answered, is_accepted, sources_of, target_of, unknown_labels, at_rest, IsOutcome,
  merge_speakers-IsAtomic,
}
use podlog.Speakers.View.{get_segments}
use podlog.Speakers.View.Merged.{without_role}
use podlog.Speakers.Panel.{round, PanelState, persist_display_name, handle_merge}
use podlog.Speakers.Panel.Shown.{is_lost, persist_display_name-shows}
use podlog.Speakers.Panel.Merges.{handle_merge-shows}

abbrev row : ℕ → Text → SegmentRow
row i speaker = record {
  episode_id = codes "e";
  id = i;
  speaker_label = some speaker;
  text = codes "t";
}

abbrev name_row : NameRow
name_row = record {
  episode_id = codes "e";
  speaker_label = codes "S0";
  display_name = codes "Ann";
  inferred = true;
  confirmed_by_user = false;
  role = some host;
  needs_review = false;
}

abbrev tables : Store ℕ
tables = record {
  episodes = [];
  segments = row 1 (codes "S0") ∷ row 2 (codes "S1") ∷ [];
  speaker_names = name_row ∷ [];
  feed_speaker_cache = [];
  turns = 0;
}

abbrev count_rows : Text → List SegmentRow → ℕ → ℕ
count_rows episode_id rows turns = length rows

abbrev same_case : Text → Text
same_case t = t

abbrev answers : MergeAnswers
answers = record {
  connect = true;
  begin = true;
  check = true;
  reassign = true;
  delete_names = true;
  rebuild = true;
  commit = true;
  rollback = true;
}

abbrev body : MergeRequest
body = record { source_labels = items (label (codes "S1") ∷ []); target_label = text (codes "S0") }

merge_speakers-IsAtomic_example :
    let sources = sources_of (some body) in
    let target = target_of (some body) in
    let result =
      merge_speakers count_rows answers (codes "e") (some body) (at_rest count_rows tables) in
    (is_merged result.0 ≡ (
      is_accepted (some body)
      && (all_answered answers
          && is_empty (unknown_labels count_rows (codes "e") sources target tables))))
    × IsOutcome count_rows true (codes "e") sources target tables result
merge_speakers-IsAtomic_example =
    merge_speakers-IsAtomic count_rows answers (codes "e") (some body) tables

abbrev name_answers : NameAnswers
name_answers = record {
  connect = true;
  begin = true;
  upsert_name = true;
  upsert_cache = true;
  commit = true;
  rollback = true;
}

persist_display_name-shows_example :
    let (page, behind) =
      persist_display_name same_case 5 round name_answers
        (codes "e")
        (codes "S1")
        (trim (codes " Bob"))
        (get_segments (codes "e") tables, tables) in
    page ≡ get_segments (codes "e") (if is_lost round then tables else behind)
persist_display_name-shows_example =
    persist_display_name-shows same_case 5 round name_answers (codes "e") (codes "S1")
      (codes " Bob") tables

abbrev panel : PanelState
panel = record {
  merge_mode = true;
  selected_labels = codes "S0" ∷ codes "S1" ∷ [];
  merge_error = none;
}

handle_merge-shows_example :
    let (panel_behind, page, behind) =
      handle_merge count_rows round answers
        (codes "e")
        (codes "S0")
        (panel, get_segments (codes "e") tables, tables) in
    map without_role page
    ≡ map without_role (get_segments (codes "e") (if is_lost round then tables else behind))
handle_merge-shows_example =
    handle_merge-shows count_rows round answers (codes "e") (codes "S0") panel tables (refl, tt)
