-- ===== src/Speakers/Names.antt =====
-- apps/web/src/lib/normalizeName.ts: names for comparison. `lower` is `toLowerCase`.
use podlog.Base.{
  ℕ, Bool, true, false, ◌||◌, ◌==◌, List, [], ◌∷◌, ◌++◌, any, join, Text, codes, text_eq, is_empty,
  is_space, trim, if◌then◌else◌,
}

unfoldable pub honorifics : List Text
honorifics =
    codes "dr"
    ∷ codes "mr"
    ∷ codes "mrs"
    ∷ codes "ms"
    ∷ codes "mx"
    ∷ codes "prof"
    ∷ codes "sir"
    ∷ codes "madam"
    ∷ codes "rev"
    ∷ codes "fr"
    ∷ codes "sr"
    ∷ codes "st"
    ∷ []

-- `s.split(/\s+/)`: a run of white space separates. `word` is what the first piece has so far.
abbrev pub split_spaces : (in_run : Bool) (word : Text) → Text → List Text
split_spaces true word [] = word ∷ []
split_spaces false word [] = word ∷ []
split_spaces true word (c ∷ s) =
    if is_space c then split_spaces true word s else split_spaces false (word ++ c ∷ []) s
split_spaces false word (c ∷ s) =
    if is_space c then word ∷ split_spaces true [] s else split_spaces false (word ++ c ∷ []) s

abbrev pub is_point : ℕ → Bool
is_point c = c == 46 || c == 44 || c == 58

-- `s.replace(/[.,:]+$/, "")`
abbrev pub strip_points : Text → Text
strip_points [] = []
strip_points (c ∷ s) =
    let rest = strip_points s in
    if is_empty rest then (if is_point c then [] else c ∷ []) else c ∷ rest

abbrev pub is_honorific : Text → Bool
is_honorific token = any (text_eq (strip_points token)) honorifics

-- The loop: the last token stays.
unfoldable pub strip_honorifics : List Text → List Text
strip_honorifics [] = []
strip_honorifics (token ∷ []) = token ∷ []
strip_honorifics (token ∷ next ∷ tokens) =
    let rest = strip_honorifics (next ∷ tokens) in
    if is_honorific token then rest else token ∷ next ∷ tokens

abbrev split_blanks : (word : Text) → Text → List Text
split_blanks word [] = word ∷ []
split_blanks word (c ∷ s) =
    if c == 32 then word ∷ split_blanks [] s else split_blanks (word ++ c ∷ []) s

module _ (lower : Text → Text) where
  unfoldable pub normalize_name : Text → Text
  normalize_name name =
      let lowered = join (codes " ") (split_spaces false [] (trim (lower name))) in
      if is_empty lowered
      then lowered
      else join (codes " ") (strip_honorifics (split_blanks [] lowered))
