-- ===== src/Filename.antt =====
-- apps/web/src/lib/filename.ts: a title as the name of an exported file. A text is the list of its
-- code units; `normalize` is normalize("NFC"). A separator has no dollar sign, which a replacement
-- would read as a pattern.
pub mod Safe
pub mod Named
mod Fuel
mod Tests
use podlog.Base.{
  ℕ, zero, suc, ◌+◌, ◌-◌, Bool, true, false, not, ◌&&◌, ◌||◌, Option, none, some, List, [], ◌∷◌,
  ◌++◌, keep, Text, codes, text_eq, is_empty, is_prefix, is_space, drop, length, leb, ltb, ◌==◌,
  if◌then◌else◌,
}

-- RESERVED_CHARS_RE
unfoldable pub is_reserved : ℕ → Bool
is_reserved c =
    c == b'/'
    || c == 92
    || c == b':'
    || c == b'*'
    || c == b'?'
    || c == 34
    || c == b'<'
    || c == b'>'
    || c == b'|'
    || leb c 8
    || c == 11
    || c == 12
    || leb 14 c && leb c 31

-- `replace(/\s+/g, separator)`; `within` tells whether the code in front is white space.
unfoldable pub spaces_to : (separator : Text) → (within : Bool) → Text → Text
spaces_to separator within [] = []
spaces_to separator within (c ∷ s) =
    let rest = spaces_to separator (is_space c) s in
    if is_space c then (if within then rest else separator ++ rest) else c ∷ rest

-- Without the separators in front.
unfoldable pub skip_separators : (fuel : ℕ) → (separator : Text) → Text → Text
skip_separators zero separator s = s
skip_separators (suc fuel) separator s =
    let rest = skip_separators fuel separator (drop (length separator) s) in
    if is_prefix separator s then rest else s

-- Whether two separators are in front.
abbrev pub is_run : (separator : Text) → Text → Bool
is_run separator s = is_prefix separator s && is_prefix separator (drop (length separator) s)

-- `replace(sepRunRe, separator)`. A round takes one code at least.
unfoldable pub collapse_runs : (fuel : ℕ) → (separator : Text) → Text → Text
collapse_runs zero separator s = s
collapse_runs (suc fuel) separator [] = []
collapse_runs (suc fuel) separator (c ∷ s) =
    let behind =
      collapse_runs fuel separator (skip_separators (length (c ∷ s)) separator (c ∷ s)) in
    let rest = collapse_runs fuel separator s in
    if is_run separator (c ∷ s) then separator ++ behind else c ∷ rest

unfoldable pub is_trim_char : (separator : Text) → ℕ → Bool
is_trim_char separator c = c == b'.' || c == 32 || c == 9 || text_eq (c ∷ []) separator

abbrev pub drop_front : (ℕ → Bool) → Text → Text
drop_front test [] = []
drop_front test (c ∷ s) = let rest = drop_front test s in if test c then rest else c ∷ s

abbrev pub unless_end : (ℕ → Bool) → ℕ → Text → Text
unless_end test c [] = if test c then [] else c ∷ []
unless_end test c (d ∷ s) = c ∷ d ∷ s

abbrev pub drop_back : (ℕ → Bool) → Text → Text
drop_back test [] = []
drop_back test (c ∷ s) = unless_end test c (drop_back test s)

unfoldable pub trim_edges : (value separator : Text) → Text
trim_edges value separator =
    drop_back (is_trim_char separator) (drop_front (is_trim_char separator) value)

abbrev pub is_high : ℕ → Bool
is_high c = leb 0xd800 c && leb c 0xdbff

abbrev pub is_low : ℕ → Bool
is_low c = leb 0xdc00 c && leb c 0xdfff

-- `Array.from(s).length`: a high surrogate and the low one behind it are one; `high` tells whether
-- the code in front is a high one.
abbrev pub count_points : (high : Bool) → Text → ℕ
count_points high [] = 0
count_points high (c ∷ s) = (if high && is_low c then 0 else 1) + count_points (is_high c) s

-- `Array.from(s).slice(0, n).join("")`
abbrev pub first_points : (n : ℕ) → (high : Bool) → Text → Text
first_points n high [] = []
first_points zero high (c ∷ s) =
    let rest = first_points zero (is_high c) s in if high && is_low c then c ∷ rest else []
first_points (suc n) high (c ∷ s) =
    c ∷ first_points (if high && is_low c then suc n else n) (is_high c) s

-- At most as many code points as there may be, with the edges trimmed again where some are cut.
unfoldable pub cut_to : (max_length : ℕ) → (separator : Text) → Text → Text
cut_to max_length separator s =
    if ltb max_length (count_points false s)
    then trim_edges (first_points max_length false s) separator
    else s

module _ (normalize : Text → Text) where
  -- The name in its normal form, without reserved codes, with separators for white space and one
  -- for each run of them.
  unfoldable pub separated : (separator name : Text) → Text
  separated separator name =
      let spaced = spaces_to separator false (keep (λ c. not (is_reserved c)) (normalize name)) in
      if is_empty separator then spaced else collapse_runs (length spaced) separator spaced

  unfoldable pub sanitize_filename : (max_length : ℕ) (separator fallback name : Text) → Text
  sanitize_filename max_length separator fallback name =
      let result = cut_to max_length separator (trim_edges (separated separator name) separator) in
      if is_empty result then fallback else result
