-- ===== src/Update.antt =====
-- apps/web/src/app/api/update-check/route.ts: the update check and its cache. The network, the
-- clock and the two environment variables are arguments: a call is given the times that its two
-- readings of the clock return, and what the host answers if it is asked.
pub mod Allowed
pub mod Fetching
mod Tests
use podlog.Base.{
  ℕ, Bool, true, false, ◌&&◌, Option, none, some, List, [], ◌∷◌, Text, codes, ltb, ◌==◌,
  if◌then◌else◌, trim, is_empty, ◌*◌, ◌-◌, text_eq, map, leb, ◌+◌,
}
use podlog.Semver.{parse_semver, newer_than}

-- The answer of the releases host: not answered, or whether it is `ok`, with the tag of its body.
pub data Answer : Type 0 where
  failed refused : Answer
  -- The tag is `none` where the body has none.
  answered : Option Text → Answer

pub record Cache : Type 0 where
  pub at : ℕ
  pub latest : Option Text

pub record UpdateCheck : Type 0 where
  pub is_enabled : Bool
  pub current : Option Text
  pub latest : Option Text

abbrev pub cache_ttl_ms : ℕ
cache_ttl_ms = 6 * 60 * 60 * 1000

abbrev to_lower : ℕ → ℕ
to_lower c = if leb b'A' c && leb c b'Z' then c + 32 else c

abbrev text_of : Option Text → Text
text_of none = []
text_of (some s) = s

-- The letters outside ASCII that a lower case folds are not among those of "true".
unfoldable pub enabled : Option Text → Bool
enabled setting = text_eq (map to_lower (text_of setting)) (codes "true")

-- `.replace(/^v/, "")`
abbrev strip_small_v : Text → Text
strip_small_v [] = []
strip_small_v (c ∷ s) = if c == b'v' then s else c ∷ s

abbrev tag_of : Text → Option Text
tag_of tag = if is_empty tag then none else some tag

unfoldable pub fetch_latest_tag : Answer → Option Text
fetch_latest_tag failed = none
fetch_latest_tag refused = none
fetch_latest_tag (answered name) = tag_of (trim (strip_small_v (text_of name)))

unfoldable pub fresh : Option Cache → ℕ → Bool
fresh none now = false
fresh (some cache) now = ltb (now - cache.at) cache_ttl_ms

abbrev pub latest_of : Option Cache → Option Text
latest_of none = none
latest_of (some cache) = cache.latest

abbrev pub report : Option Text → Option Text → Option Text
report current latest =
    if newer_than (parse_semver (text_of latest)) (parse_semver (text_of current))
    then latest
    else none

-- What a call leaves in the cache, whether it asked the host, and what it returns.
pub record Reply : Type 0 where
  pub cache : Option Cache
  pub did_fetch : Bool
  pub body : UpdateCheck

abbrev pub refreshed : Option Cache → (now at : ℕ) → Answer → Option Cache
refreshed cache now at answer =
    if fresh cache now then cache else some (record { at = at; latest = fetch_latest_tag answer })

abbrev pub checked : Option Text → Option Cache → Bool → Reply
checked current cache did_fetch = record {
  cache = cache;
  did_fetch = did_fetch;
  body = record { is_enabled = true; current = current; latest = report current (latest_of cache) };
}

-- `GET`: `now` is the clock where the cache is tested, `at` where it is filled.
unfoldable pub get : (setting current : Option Text) → Option Cache → (now at : ℕ) → Answer → Reply
get setting current cache now at answer =
    if enabled setting
    then checked current (refreshed cache now at answer) (if fresh cache now then false else true)
    else record {
      cache = cache;
      did_fetch = false;
      body = record { is_enabled = false; current = none; latest = none };
    }
