-- ===== src/Audio.antt =====
-- apps/web/src/app/api/audio/[episodeId]/[filename]/route.ts: serving an episode's audio file. The
-- module path, the files and `toLowerCase` are parameters.
pub mod Served
mod Tests
use podlog.Base.{
  ℕ, ◌+◌, ◌-◌, Bool, true, false, not, ◌&&◌, Option, none, some, List, [], ◌∷◌, ◌++◌, Text, codes,
  drop, is_prefix, is_empty, text_eq, present, leb, ◌==◌, if◌then◌else◌,
}
use podlog.Base.Assoc.{lookup}
use podlog.Base.Digits.{Whole, plus, minus, parse_int}

-- AUDIO_DIRS
abbrev pub archive_dir : Text
archive_dir = codes "/data/audio/archive"

abbrev pub raw_dir : Text
raw_dir = codes "/data/audio/raw"

abbrev pub mime_types : List (Text × Text)
mime_types =
    (codes ".mp3", codes "audio/mpeg")
    ∷ (codes ".m4a", codes "audio/mp4")
    ∷ (codes ".mp4", codes "audio/mp4")
    ∷ (codes ".ogg", codes "audio/ogg")
    ∷ (codes ".wav", codes "audio/wav")
    ∷ (codes ".flac", codes "audio/flac")
    ∷ (codes ".opus", codes "audio/opus")
    ∷ (codes ".aac", codes "audio/aac")
    ∷ (codes ".wma", codes "audio/x-ms-wma")
    ∷ []

-- `path` and `fs`. `opens` says whether `createReadStream` takes the two ends; a number that is
-- NaN is `none`.
pub record Files : Type 0 where
  pub basename : Text → Text
  pub extname : Text → Text
  pub resolve : (dir name : Text) → Text
  pub exists : Text → Bool
  pub size : Text → ℕ
  pub opens : (start stop : Option Whole) → Bool

-- A whole file, or a part of it with the numbers of its headers.
pub data AudioReply : Type 0 where
  no_episode other_file not_found thrown : AudioReply
  whole : (path : Text) (length : ℕ) (content_type : Text) → AudioReply
  part :
      (path : Text) (start stop length : Option Whole) (size : ℕ) (content_type : Text) → AudioReply

abbrev pub type_or : Option Text → Text
type_or none = codes "audio/mpeg"
type_or (some t) = t

-- `s.replace(/bytes=/, "")`
unfoldable pub strip_bytes : Text → Text
strip_bytes [] = []
strip_bytes (c ∷ s) =
    let rest = strip_bytes s in
    if is_prefix (codes "bytes=") (c ∷ s) then drop 6 (c ∷ s) else c ∷ rest

-- The first piece of `s.split("-")`, and the second, if there is one.
unfoldable pub first_piece : Text → Text
first_piece [] = []
first_piece (c ∷ s) = if c == 45 then [] else c ∷ first_piece s

unfoldable pub second_piece : Text → Option Text
unfolding first_piece
second_piece [] = none
second_piece (c ∷ s) = let later = second_piece s in if c == 45 then some (first_piece s) else later

abbrev pub minus_whole : Whole → Whole → Whole
minus_whole (plus a) (plus b) = if leb b a then plus (a - b) else minus (b - a)
minus_whole (plus a) (minus b) = plus (a + b)
minus_whole (minus a) (plus b) = minus (a + b)
minus_whole (minus a) (minus b) = if leb a b then plus (b - a) else minus (a - b)

-- `end - start + 1`
abbrev pub chunk_size : (start stop : Option Whole) → Option Whole
chunk_size (some a) (some b) = some (minus_whole (minus_whole b a) (minus 1))
chunk_size _ _ = none

-- `fileSize - 1`
abbrev pub last_of : (file_size : ℕ) → Whole
last_of file_size = minus_whole (plus file_size) (plus 1)

module _ (F : Files) (lower : Text → Text) where
  open F use {basename, extname, resolve, exists, size, opens}

  -- `getContentType`
  abbrev pub content_type : Text → Text
  content_type filename = type_or (lookup (lower (extname filename)) mime_types)

  abbrev pub usable : (dir name : Text) → Bool
  usable dir name =
      let candidate = resolve dir name in is_prefix (dir ++ codes "/") candidate && exists candidate

  -- The loop over AUDIO_DIRS.
  abbrev pub resolved : (name : Text) → Option Text
  resolved name =
      if usable archive_dir name
      then some (resolve archive_dir name)
      else if usable raw_dir name
      then some (resolve raw_dir name)
      else none

  abbrev pub stop_of : (file_size : ℕ) → Option Text → Option Whole
  stop_of file_size none = some (last_of file_size)
  stop_of file_size (some stop) = parse_int stop

  abbrev pub serve_part : (path range : Text) → AudioReply
  serve_part path range =
      let range_text = strip_bytes range in
      let start = parse_int (first_piece range_text) in
      let stop = stop_of (size path) (present (second_piece range_text)) in
      if opens start stop
      then part path start stop (chunk_size start stop) (size path) (content_type path)
      else thrown

  abbrev pub serve : (range : Option Text) → (path : Option Text) → AudioReply
  serve range none = not_found
  serve none (some path) = whole path (size path) (content_type path)
  serve (some range) (some path) = serve_part path range

  -- `episodePath && path.basename(episodePath) !== safeName`
  abbrev pub is_other : (episode_path : Option Text) (name : Text) → Bool
  is_other none name = false
  is_other (some p) name = not (text_eq (basename p) name)

  -- `GET`, with the rows that the database has for the episode.
  unfoldable pub get_audio :
      (rows : List (Option Text)) (filename : Text) (range : Option Text) → AudioReply
  get_audio [] filename range = no_episode
  get_audio (episode_path ∷ rows) filename range =
      let safe_name = basename filename in
      if is_other (present episode_path) safe_name
      then other_file
      else serve (present range) (resolved safe_name)
