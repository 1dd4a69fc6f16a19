-- ===== src/Semver.antt =====
-- apps/web/src/lib/semver.ts: reading and comparing versions.
pub mod Order
pub mod Reading
mod Tests
use podlog.Base.{
  ℕ, Bool, true, false, ◌||◌, Option, none, some, List, [], ◌∷◌, Text, codes, ltb, ◌==◌, not,
  if◌then◌else◌, trim, is_empty,
}
use podlog.Base.Digits.{digits_front, digits_rest, value}

pub record SemverParts : Type 0 where
  pub major : ℕ
  pub minor : ℕ
  pub patch : ℕ

-- `.replace(/^v/i, "")`
unfoldable pub strip_v : Text → Text
strip_v [] = []
strip_v (c ∷ s) = if c == b'v' || c == b'V' then s else c ∷ s

-- `\.`, and what follows it.
unfoldable pub after_dot : Text → Option Text
after_dot [] = none
after_dot (c ∷ s) = if c == b'.' then some s else none

-- The third number, which may be followed by anything.
unfoldable pub match_patch : (major minor : ℕ) → Text → Option SemverParts
match_patch major minor s =
    if is_empty (digits_front s)
    then none
    else some (record { major = major; minor = minor; patch = value (digits_front s) })

unfoldable pub match_minor : (major : ℕ) → Text → Option SemverParts
match_minor major s = if is_empty (digits_front s) then none else elim (after_dot (digits_rest s)) [
  | none ↦ none
  | some t ↦ match_patch major (value (digits_front s)) t
]

-- `/^(\d+)\.(\d+)\.(\d+)/`
unfoldable pub match_major : Text → Option SemverParts
match_major s = if is_empty (digits_front s) then none else elim (after_dot (digits_rest s)) [
  | none ↦ none
  | some t ↦ match_minor (value (digits_front s)) t
]

unfoldable pub parse_semver : Text → Option SemverParts
parse_semver text = match_major (strip_v (trim text))

-- The results -1, 0 and 1.
pub data Sign : Type 0 where
  before same after : Sign

abbrev pub compare_parts : SemverParts → SemverParts → Sign
compare_parts a b =
    if not (a.major == b.major)
    then if ltb a.major b.major then before else after
    else if not (a.minor == b.minor)
    then if ltb a.minor b.minor then before else after
    else if not (a.patch == b.patch)
    then if ltb a.patch b.patch then before else after
    else same

unfoldable pub compare_semver : Option SemverParts → Option SemverParts → Sign
compare_semver (some a) (some b) = compare_parts a b
compare_semver _ _ = same

abbrev pub is_after : Sign → Bool
is_after after = true
is_after _ = false

abbrev pub both_present : Option SemverParts → Option SemverParts → Bool
both_present (some a) (some b) = true
both_present _ _ = false

-- `compareSemver(b, a) === 1`, where both were read.
unfoldable pub newer_than : Option SemverParts → Option SemverParts → Bool
newer_than b a = if both_present a b then is_after (compare_semver b a) else false

abbrev pub parse_present : Option Text → Option SemverParts
parse_present none = none
parse_present (some []) = none
parse_present (some (c ∷ s)) = parse_semver (c ∷ s)

unfoldable pub is_on_disk_newer : (on_disk built_in : Option Text) → Bool
is_on_disk_newer on_disk built_in = newer_than (parse_present on_disk) (parse_present built_in)
