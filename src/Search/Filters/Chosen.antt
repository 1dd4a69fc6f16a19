-- ===== src/Search/Filters/Chosen.antt =====
-- Which conditions the filters choose: those whose value is there, in their order, the one at
-- position `k` with the place `start + k` and its own value as the parameter.
use Prim.Native.String.{String}
use podlog.Base.{ℕ, ◌+◌, ◌≡◌, Option, none, some, List, [], ◌∷◌, ◌++◌, arith, Text, codes, present}
use podlog.Search.Sql.{Sql, Param}
use podlog.Search.Filters.{
  FilterOptions, push, build_like_pattern, build_joined_filters, build_metadata_filters,
  label_clause, like_clause, title_clause, description_clause, exists_like_clause,
  exists_label_clause,
}

-- A condition that a value switches on, and the parameter that the value becomes.
pub record Condition : Type 0 where
  pub value : Option Text
  pub clause : ℕ → Sql
  pub pattern : Text → Text

abbrev pub exactly : Text → Text
exactly v = v

abbrev pub containing : Text → Text
containing v = codes "%" ++ (v ++ codes "%")

abbrev pub joined_conditions : FilterOptions → String → List Condition
joined_conditions opts segment_alias =
    record { value = opts.speaker_label; clause = label_clause; pattern = exactly }
    ∷ record { value = opts.speaker_like; clause = like_clause segment_alias; pattern = exactly }
    ∷ record { value = opts.title_filter; clause = title_clause; pattern = containing }
    ∷ record { value = opts.description_filter; clause = description_clause; pattern = containing }
    ∷ []

abbrev pub metadata_conditions : FilterOptions → List Condition
metadata_conditions opts =
    record { value = opts.title_filter; clause = title_clause; pattern = containing }
    ∷ record { value = opts.description_filter; clause = description_clause; pattern = containing }
    ∷ record { value = opts.speaker_like; clause = exists_like_clause; pattern = exactly }
    ∷ record { value = opts.speaker_label; clause = exists_label_clause; pattern = exactly }
    ∷ []

abbrev pub chosen_clauses : ℕ → List Condition → List Sql
chosen_clauses i [] = []
chosen_clauses i (c ∷ cs) = elim (present c.value) [
  | none ↦ chosen_clauses i cs
  | some v ↦ c.clause i ∷ chosen_clauses (i + 1) cs
]

abbrev pub chosen_params : List Condition → List Param
chosen_params [] = []
chosen_params (c ∷ cs) = elim (present c.value) [
  | none ↦ chosen_params cs
  | some v ↦ Param.text (some (c.pattern v)) ∷ chosen_params cs
]

-- The filters of a search over turns or segments, and those of a search over metadata, choose
-- the conditions whose value is there, in their order. The one at position `k` has the place
-- `start + k`, and the value itself, or between two `%`, is the parameter at that position.
pub build_filters-chosen :
    (opts : FilterOptions) (start : ℕ) (segment_alias : String)
    → let joined = build_joined_filters opts start segment_alias in
      let metadata = build_metadata_filters opts start in
      (joined.clauses ≡ chosen_clauses start (joined_conditions opts segment_alias))
      × (joined.params ≡ chosen_params (joined_conditions opts segment_alias))
      × (metadata.clauses ≡ chosen_clauses start (metadata_conditions opts))
      × (metadata.params ≡ chosen_params (metadata_conditions opts))
unfolding build_joined_filters build_metadata_filters push build_like_pattern
build_filters-chosen opts start segment_alias =
    (ground arith, ground arith, ground arith, ground arith)
