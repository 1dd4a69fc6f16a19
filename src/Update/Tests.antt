-- ===== src/Update/Tests.antt =====
-- The update check on concrete calls.
use podlog.Base.{◌+◌, ◌↔◌, trim, ℕ, ◌≡◌, refl, true, none, some, List, [], ◌∷◌, arith, codes}
use podlog.Base.Digits.{is_digit, digits_front, digits_rest, value_from}
use podlog.Semver.{
  compare_semver, match_major, match_minor, match_patch, strip_v, after_dot, parse_semver,
  newer_than,
}
use podlog.Update.{answered, get, enabled, latest_of, text_of, fetch_latest_tag, fresh}
use podlog.Update.Fetching.{Call, fetches, Spaced, filled_at, fetches-Spaced}
use podlog.Update.Allowed.{get-IsLower, IsLower, spells_true}

abbrev call : ℕ → Call
call now = record {
  setting = some (codes "True");
  current = some (codes "1.9.3");
  now = now;
  at = now + 1;
  answer = answered (some (codes "v1.10.0"));
}

abbrev calls : List Call
calls = call 0 ∷ call 5 ∷ call 30000000 ∷ []

-- The second call is answered from the cache.
fetches_twice : fetches none calls ≡ 1 ∷ 30000001 ∷ []
unfolding get enabled fresh fetch_latest_tag
fetches_twice = refl

fetches-Spaced_example : Spaced (filled_at none) (fetches none calls)
fetches-Spaced_example = fetches-Spaced none calls (omega arith, (omega arith, (omega arith, tt)))

reports_newer :
    (get
      (some (codes "true"))
      (some (codes "1.9.3"))
      none
      0
      1
      (answered (some (codes "v1.10.0")))).body.latest
    ≡ some (codes "1.10.0")
unfolding get enabled fetch_latest_tag fresh newer_than parse_semver match_major digits_front
    strip_v trim is_digit after_dot digits_rest match_minor match_patch compare_semver value_from
reports_newer = refl

get-IsLower_example :
    let reply =
      get
        (some (codes "true"))
        (some (codes "1.9.3"))
        none
        0
        1
        (answered (some (codes "v1.10.0"))) in
    (reply.body.latest ≡ some (codes "1.10.0")) ↔ (
      (spells_true (text_of (some (codes "true"))) ≡ true)
      × (latest_of reply.cache ≡ some (codes "1.10.0"))
      × IsLower (text_of (some (codes "1.9.3"))) (codes "1.10.0"))
get-IsLower_example =
    get-IsLower (some (codes "true")) (some (codes "1.9.3")) none 0 1
      (answered (some (codes "v1.10.0"))) (codes "1.10.0")
