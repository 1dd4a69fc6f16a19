-- ===== src/Merge/Tests.antt =====
-- Requests to merge labels.
use podlog.Base.{trim, ◌≡◌, none, refl, [], ◌∷◌, codes}
use podlog.Merge.{label, text, items, MergeRequest, validate_merge_request}

abbrev request : MergeRequest
request = record {
  source_labels = items (label (codes "SPEAKER_01") ∷ label (codes "SPEAKER_02") ∷ []);
  target_label = text (codes "SPEAKER_00");
}

request_accepted : validate_merge_request request ≡ none
unfolding validate_merge_request trim
request_accepted = refl
