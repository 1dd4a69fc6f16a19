-- ===== src/Merge.antt =====
-- apps/web/src/lib/validateMergeRequest.ts: the check of a request to merge speaker labels, whose
-- body is JSON. A body that is null, on which the source throws, is none of these bodies.
pub mod Accepted
mod Tests
use podlog.Base.{
  Bool, true, false, not, ◌||◌, Option, none, some, List, [], ◌∷◌, Text, codes, text_eq, any,
  if◌then◌else◌, is_empty, trim,
}

-- An element of an array.
pub data Element : Type 0 where
  label : Text → Element
  no_text : Element

-- A field of the body: `other` is neither a text nor an array, with its value as a condition.
pub data Field : Type 0 where
  text : Text → Field
  items : List Element → Field
  other : (is_truthy : Bool) → Field

pub record MergeRequest : Type 0 where
  pub source_labels : Field
  pub target_label : Field

abbrev pub is_blank : Text → Bool
is_blank s = is_empty (trim s)

abbrev pub is_bad : Element → Bool
is_bad (label s) = is_blank s
is_bad no_text = true

abbrev is_label : Text → Element → Bool
is_label t (label s) = text_eq s t
is_label t no_text = false

abbrev validate_target : List Element → Field → Option Text
validate_target labels (text t) =
    if is_blank t
    then some (codes "target_label must be a non-empty string")
    else if any (is_label t) labels
    then some (codes "target_label must not appear in source_labels")
    else none
validate_target labels _ = some (codes "target_label must be a non-empty string")

abbrev validate_fields : Field → Field → Option Text
validate_fields (items []) target = some (codes "source_labels must be a non-empty array")
validate_fields (items (e ∷ es)) target =
    if any is_bad (e ∷ es)
    then some (codes "source_labels must contain non-empty strings")
    else validate_target (e ∷ es) target
validate_fields _ target = some (codes "source_labels must be a non-empty array")

-- `none` is a request that is accepted, and otherwise the error.
unfoldable pub validate_merge_request : MergeRequest → Option Text
validate_merge_request b = validate_fields b.source_labels b.target_label
