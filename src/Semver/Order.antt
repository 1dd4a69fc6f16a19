-- ===== src/Semver/Order.antt =====
-- Versions are ordered by their three numbers, the first that differs deciding.
use podlog.Base.{◌&&◌, not, ◌<◌, ◌≡◌, refl, false, Option, none, some, ◌⊎◌, ◌↔◌, arith}
use podlog.Semver.{SemverParts, before, same, after, compare_semver, newer_than}

-- The lexicographic order, as a relation.
abbrev pub Precedes : SemverParts → SemverParts → Type 0
Precedes a b =
    (a.major < b.major)
    ⊎ ((a.major ≡ b.major) × (a.minor < b.minor))
    ⊎ ((a.major ≡ b.major) × (a.minor ≡ b.minor) × (a.patch < b.patch))

-- The comparison decides the lexicographic order of two versions, and is 0 exactly at equals.
pub compare_semver-Precedes :
    (a b : SemverParts)
    → ((compare_semver (some a) (some b) ≡ before) ↔ Precedes a b)
      × ((compare_semver (some a) (some b) ≡ after) ↔ Precedes b a)
      × ((compare_semver (some a) (some b) ≡ same) ↔ (a ≡ b))
unfolding compare_semver
compare_semver-Precedes a b = (
  (λ h. ground arith, λ h. ground arith),
  (λ h. ground arith, λ h. ground arith),
  (λ h. ground arith, λ h. ground arith),
)

-- Of two versions at most one is newer than the other, being newer goes on from one to the next,
-- and a text that is no version is neither newer nor older.
newer_than_order :
    (a b c : Option SemverParts)
    → (newer_than a b && newer_than b a ≡ false)
      × (newer_than a b && newer_than b c && not (newer_than a c) ≡ false)
      × (newer_than none a ≡ false)
      × (newer_than a none ≡ false)
unfolding newer_than compare_semver
newer_than_order none none c = (refl, refl, refl, refl)
newer_than_order none (some b) c = (refl, refl, refl, refl)
newer_than_order (some a) none c = (refl, refl, refl, refl)
newer_than_order (some a) (some b) none = (ground arith, ground arith, refl, refl)
newer_than_order (some a) (some b) (some c) = (ground arith, ground arith, refl, refl)
