-- ===== src/Search/Query.antt =====
-- apps/web/src/lib/search/queryParser.ts: free text and scoped values of a search line, such as
-- `title:foo speaker:"Ann B"`. Positions are indices of code units, as `matchAll` gives them.
pub mod Scan
pub mod Ink
pub mod Kept
use podlog.Base.{
  ℕ, zero, suc, ◌+◌, ◌-◌, Bool, true, false, not, ◌&&◌, ◌||◌, Option, none, some, List, [], ◌∷◌,
  ◌++◌, Text, codes, leb, ltb, ◌==◌, if◌then◌else◌, is_space, trim, present, is_empty, join, keep,
  slice, length,
}

pub data Mode : Type 0 where
  transcript_hybrid metadata_only : Mode

pub data Scope : Type 0 where
  title description speaker : Scope

pub record ParsedSearchQuery : Type 0 where
  pub raw : Text
  pub free_text : Text
  pub title_filter : Option Text
  pub description_filter : Option Text
  pub speaker_filter : Option Text
  pub mode : Mode

-- One result of `matchAll(SCOPE_PATTERN)`: the scope's name, `match.index`, `match[0].length`.
pub record ScopeMatch : Type 0 where
  pub scope : Scope
  pub index : ℕ
  pub size : ℕ

-- `\w`
unfoldable pub is_word : ℕ → Bool
is_word c =
    leb b'0' c && leb c b'9' || leb b'A' c && leb c b'Z' || c == b'_' || leb b'a' c && leb c b'z'

-- The folding of the flag `i`, which maps no other unit onto an ASCII letter.
abbrev fold_case : ℕ → ℕ
fold_case c = if leb b'A' c && leb c b'Z' then c + 32 else c

abbrev scope_name : Scope → Text
scope_name title = codes "title"
scope_name description = codes "description"
scope_name speaker = codes "speaker"

-- What follows the name, where the text begins with it in any case.
unfoldable pub strip_name : Text → Text → Option Text
strip_name [] s = some s
strip_name (k ∷ name) [] = none
strip_name (k ∷ name) (c ∷ s) = if fold_case c == k then strip_name name s else none

-- The length of `\s*:` in front of the text.
unfoldable pub colon_size : Text → Option ℕ
colon_size [] = none
colon_size (c ∷ s) =
    let rest = colon_size s in
    if c == b':'
    then some 1
    else if is_space c
    then elim rest [ none ↦ none | some n ↦ some (suc n) ]
    else none

unfoldable pub match_name : Scope → Text → Option (Scope × ℕ)
unfolding strip_name colon_size
match_name scope s = elim (strip_name (scope_name scope) s) [
  | none ↦ none
  | some rest ↦ elim (colon_size rest) [
    | none ↦ none
    | some n ↦ some (scope, length (scope_name scope) + n)
  ]
]

unfoldable pub match_here : Text → Option (Scope × ℕ)
unfolding match_name
match_here s = elim (match_name title s) [
  | some m ↦ some m
  | none ↦ elim (match_name description s) [ some m ↦ some m | none ↦ match_name speaker s ]
]

-- `matchAll`: `skip` units of the last match are left, and `after_word` says that the unit in
-- front is a word's, where `\b` cannot hold before a letter.
unfoldable pub match_all_from : (skip i : ℕ) → Bool → Text → List ScopeMatch
match_all_from skip i after_word [] = []
match_all_from (suc skip) i after_word (c ∷ s) = match_all_from skip (i + 1) (is_word c) s
match_all_from zero i after_word (c ∷ s) = elim (if after_word then none else match_here (c ∷ s)) [
  | none ↦ match_all_from zero (i + 1) (is_word c) s
  | some (scope, size) ↦
      record { scope = scope; index = i; size = size }
      ∷ match_all_from (size - 1) (i + 1) (is_word c) s
]

abbrev pub match_all : Text → List ScopeMatch
match_all input = match_all_from 0 0 false input

unfoldable pub ends_with_quote : Text → Bool
ends_with_quote [] = false
ends_with_quote (c ∷ []) = c == b'"'
ends_with_quote (c ∷ d ∷ s) = ends_with_quote (d ∷ s)

-- `starts_with('"')`, then the text without its quotes.
unfoldable pub unquote : Text → Text
unfolding ends_with_quote
unquote s = if ends_with_quote s then slice 1 (length s - 1) s else slice 1 (length s) s

abbrev begins_with_quote : Text → Bool
begins_with_quote [] = false
begins_with_quote (c ∷ s) = c == b'"'

unfoldable pub normalize_value : Text → Option Text
unfolding unquote
normalize_value value =
    let trimmed = trim value in
    if is_empty trimmed
    then none
    else if begins_with_quote trimmed
    then present (some (trim (unquote trimmed)))
    else some trimmed

unfoldable pub append_scoped_value : Option Text → Option Text → Option Text
append_scoped_value existing next = elim (present next) [
  | none ↦ existing
  | some n ↦ elim (present existing) [ none ↦ next | some e ↦ some (e ++ (codes " " ++ n)) ]
]

-- The variables of the loop in `parseSearchQuery`.
pub record ParseState : Type 0 where
  pub free_text_parts : List Text
  pub title_filter : Option Text
  pub description_filter : Option Text
  pub speaker_filter : Option Text
  pub cursor : ℕ

abbrev pub add_value : Scope → Option Text → ParseState → ParseState
add_value title v st = record st { title_filter = append_scoped_value st.title_filter v }
add_value description v st = record st {
  description_filter = append_scoped_value st.description_filter v;
}
add_value speaker v st = record st { speaker_filter = append_scoped_value st.speaker_filter v }

abbrev pub add_part : Text → ParseState → ParseState
add_part part st = record st { free_text_parts = st.free_text_parts ++ part ∷ [] }

-- `matches[i + 1].index`, or the end of the input.
abbrev pub next_scope_start : Text → List ScopeMatch → ℕ
next_scope_start input [] = length input
next_scope_start input (m ∷ ms) = m.index

-- A value that is there goes to its scope; without one the whole token stays free text.
unfoldable pub store : Scope → Option Text → Text → ParseState → ParseState
store scope normalized token_text st = elim (present normalized) [
  | some _ ↦ add_value scope normalized st
  | none ↦ if is_empty token_text then st else add_part token_text st
]

-- One round of the loop, with the start of the next scope.
unfoldable pub parse_round : Text → ScopeMatch → ℕ → ParseState → ParseState
parse_round input m next_start st =
    let before =
      if ltb st.cursor m.index then add_part (trim (slice st.cursor m.index input)) st else st in
    let normalized = normalize_value (slice (m.index + m.size) next_start input) in
    let token_text = trim (slice m.index next_start input) in
    record (store m.scope normalized token_text before) { cursor = next_start }

unfoldable pub parse_loop : Text → List ScopeMatch → ParseState → ParseState
parse_loop input [] st = st
parse_loop input (m ∷ ms) st =
    parse_loop input ms (parse_round input m (next_scope_start input ms) st)

abbrev pub truthy : Option Text → Bool
truthy value = elim (present value) [ none ↦ false | some _ ↦ true ]

abbrev pub start_state : ParseState
start_state = record {
  free_text_parts = [];
  title_filter = none;
  description_filter = none;
  speaker_filter = none;
  cursor = 0;
}

-- The lines behind the loop.
unfoldable pub finish : Text → Text → ParseState → ParsedSearchQuery
finish raw input st =
    let parts =
      if ltb st.cursor (length input)
      then st.free_text_parts ++ trim (slice st.cursor (length input) input) ∷ []
      else st.free_text_parts in
    let free_text = trim (join (codes " ") (keep (λ p. not (is_empty p)) parts)) in
    let has_scoped_filters =
      truthy st.title_filter || truthy st.description_filter || truthy st.speaker_filter in
    record {
      raw = raw;
      free_text = free_text;
      title_filter = st.title_filter;
      description_filter = st.description_filter;
      speaker_filter = st.speaker_filter;
      mode = if is_empty free_text && has_scoped_filters then metadata_only else transcript_hybrid;
    }

-- What is returned for the markers found: the trimmed line itself where there are none.
unfoldable pub parse_matches : (raw input : Text) → List ScopeMatch → ParsedSearchQuery
parse_matches raw input [] = record {
  raw = raw;
  free_text = input;
  title_filter = none;
  description_filter = none;
  speaker_filter = none;
  mode = transcript_hybrid;
}
parse_matches raw input (m ∷ ms) = finish raw input (parse_loop input (m ∷ ms) start_state)

unfoldable pub parse_search_query : Text → ParsedSearchQuery
parse_search_query raw = let input = trim raw in parse_matches raw input (match_all input)

-- For a test that runs the parser.
unfoldable pub parser : Unit {0}
unfolding parse_search_query parse_matches finish parse_loop parse_round store append_scoped_value
    normalize_value match_all_from match_here is_word trim
parser = tt
