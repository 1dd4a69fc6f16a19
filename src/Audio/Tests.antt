-- ===== src/Audio/Tests.antt =====
-- Serving a part of an episode's file.
use podlog.Base.{
  ◌≡◌, refl, Bool, true, false, ◌&&◌, Option, none, some, [], ◌∷◌, ◌++◌, Text, codes, arith, leb,
  leb→le,
}
use podlog.Base.Digits.{Whole, plus, minus}
use podlog.Audio.{Files, get_audio}
use podlog.Audio.Served.{IsRange, IsServed, is_served, is_refused, get_audio-IsServed}

abbrev opens_between : (start stop : Option Whole) → Bool
opens_between (some (plus a)) (some (plus b)) = leb a b
opens_between _ _ = false

opens_between-IsRange :
    (start stop : Option Whole) → opens_between start stop ≡ true → IsRange start stop
opens_between-IsRange (some (plus a)) (some (plus b)) h = (a, b, refl, refl, leb→le a b h)
opens_between-IsRange (some (plus a)) (some (minus b)) h = ground arith
opens_between-IsRange (some (plus a)) none h = ground arith
opens_between-IsRange (some (minus a)) stop h = ground arith
opens_between-IsRange none stop h = ground arith

-- Every file is there, with 100 bytes; a name is its own base name.
abbrev files : Files
files = record {
  basename = λ t. t;
  extname = λ t. codes ".mp3";
  resolve = λ dir name. dir ++ (codes "/" ++ name);
  exists = λ p. true;
  size = λ p. 100;
  opens = opens_between;
}

abbrev lowered : Text → Text
lowered t = t

get_audio-IsServed_example :
    let reply =
      get_audio files lowered
        (some (codes "a.mp3") ∷ [])
        (codes "a.mp3")
        (some (codes "bytes=10-19")) in
    IsServed files lowered (codes "a.mp3") reply
    × ((is_served reply && is_refused files lowered (some (codes "a.mp3") ∷ []) (codes "a.mp3"))
        ≡ false)
get_audio-IsServed_example =
    get_audio-IsServed files lowered opens_between-IsRange (some (codes "a.mp3") ∷ [])
      (codes "a.mp3") (some (codes "bytes=10-19"))
