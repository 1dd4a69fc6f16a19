-- ===== src/Docs/Sections.antt =====
-- apps/web/src/lib/docs-index.ts: a document of the guide, split at its headings. Reading the files
-- is not modelled. `lower` and `show` are those of the slugger.
pub mod Headings
use podlog.Base.{
  ℕ, ◌+◌, Bool, true, false, not, ◌||◌, Option, none, some, List, [], ◌∷◌, ◌++◌, Text, any, ◌==◌,
  if◌then◌else◌, is_space, is_empty, trim,
}
use podlog.Base.Assoc.{lookup, set_key}
use podlog.Docs.{DocSection, DocSource, base_of, count_of, numbered}

-- The units that `.` does not match.
abbrev is_terminator : ℕ → Bool
is_terminator c = c == 10 || (c == 13 || (c == 8232 || c == 8233))

-- `(.+)$` behind `\s+`: without more than white space, the last unit of it is given back. `back` is
-- the unit before the text, where it is white space and not the only one.
abbrev heading_body : (back : Option ℕ) → Text → Option Text
heading_body none [] = none
heading_body (some b) [] = if is_terminator b then none else some (b ∷ [])
heading_body back (c ∷ s) =
    let further = heading_body (some c) s in
    if is_space c then further else if any is_terminator (c ∷ s) then none else some (c ∷ s)

abbrev at_level : ℕ → Option Text → Option (ℕ × Text)
at_level level none = none
at_level level (some s) = some (level, s)

abbrev match_deep : Text → Option (ℕ × Text)
match_deep [] = none
match_deep (c ∷ s) = if is_space c then at_level 3 (heading_body none s) else none

abbrev match_after : Text → Option (ℕ × Text)
match_after [] = none
match_after (c ∷ s) =
    if is_space c
    then at_level 2 (heading_body none s)
    else if c == b'#'
    then match_deep s
    else none

-- `line.match(/^(##|###)\s+(.+)$/)`, with the level of the marker.
unfoldable pub match_heading : (line : Text) → Option (ℕ × Text)
unfolding is_space
match_heading (a ∷ b ∷ s) = if a == b'#' then if b == b'#' then match_after s else none else none
match_heading _ = none

-- `markdown.split("\n")`, where `line` is what the line has so far.
abbrev pub lines_of : (line : Text) → Text → List Text
lines_of line [] = line ∷ []
lines_of line (c ∷ s) = if c == 10 then line ∷ lines_of [] s else lines_of (line ++ c ∷ []) s

unfoldable pub flush : DocSection → List DocSection
flush current =
    if not (is_empty (trim current.content)) || not (is_empty current.section_title)
    then record current { content = trim current.content } ∷ []
    else []

abbrev pub add_line : DocSection → Text → DocSection
add_line current line = record current {
  content = current.content ++ ((if is_empty current.content then [] else 10 ∷ []) ++ line);
}

-- What all sections of the document share.
abbrev pub section_with : DocSection → (id title : Text) → (level : ℕ) → DocSection
section_with document id title level = record document {
  section_id = id;
  section_title = title;
  level = level;
  content = [];
}

module _ (lower : Text → Text) (show : ℕ → Text) where
  -- The loop, from the slugger's counts and the current section.
  unfoldable pub split_from :
      (slug_counts : List (Text × ℕ)) → DocSection → (lines : List Text) → List DocSection
  split_from slug_counts current [] = flush current
  split_from slug_counts current (line ∷ lines) = elim (match_heading line) [
    | some (level, body) ↦
        let text = trim body in
        let base = base_of lower show text in
        let count = count_of (lookup base slug_counts) in
        flush current
        ++ split_from (set_key base (count + 1) slug_counts)
            (section_with current (numbered lower show base count) text level) lines
    | none ↦ split_from slug_counts (add_line current line) lines
  ]

  unfoldable pub split_doc_into_sections :
      (doc_slug doc_title markdown : Text) → DocSource → (repo_path : Text) → List DocSection
  split_doc_into_sections doc_slug doc_title markdown source repo_path =
      split_from []
        (record {
          doc_slug = doc_slug;
          doc_title = doc_title;
          section_id = [];
          section_title = [];
          level = 0;
          source = source;
          repo_path = repo_path;
          content = [];
        })
        (lines_of [] markdown)
