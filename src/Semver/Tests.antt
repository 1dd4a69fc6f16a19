-- ===== src/Semver/Tests.antt =====
-- Versions, compared and read.
use podlog.Base.{◌↔◌, is_space, ◌≡◌, refl, some, codes}
use podlog.Base.Digits.{is_digit, value_from}
use podlog.Semver.{SemverParts, before, after, same, parse_semver, compare_semver}
use podlog.Semver.Order.{Precedes, compare_semver-Precedes}
use podlog.Semver.Reading.{parse_semver-written}

abbrev older : SemverParts
older = record { major = 1; minor = 9; patch = 3 }

abbrev newer : SemverParts
newer = record { major = 1; minor = 10; patch = 0 }

compare_semver-Precedes_example :
    ((compare_semver (some older) (some newer) ≡ before) ↔ Precedes older newer)
    × ((compare_semver (some older) (some newer) ≡ after) ↔ Precedes newer older)
    × ((compare_semver (some older) (some newer) ≡ same) ↔ (older ≡ newer))
compare_semver-Precedes_example = compare_semver-Precedes older newer

parse_semver-written_example :
    (parse_semver (codes "1.10.0-rc1") ≡ some newer)
    × (parse_semver (codes "v1.10.0-rc1") ≡ some newer)
unfolding is_digit is_space value_from
parse_semver-written_example =
    parse_semver-written (codes "1") (codes "10") (codes "0") (codes "-rc1") (refl, tt)
      (refl, (refl, tt)) (refl, tt) refl refl refl refl (refl, (refl, (refl, (refl, tt))))
