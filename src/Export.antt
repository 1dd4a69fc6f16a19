-- ===== src/Export.antt =====
-- apps/web/src/lib/timestamp.ts and transcriptExport.ts: labels for times, and a transcript as text
-- and as Markdown. Of a time only the whole seconds are read, and a time is these.
pub mod Conversations
mod Tests
use podlog.Base.{
  ℕ, zero, suc, ◌+◌, ◌-◌, ◌*◌, ◌/◌, ◌%◌, Bool, true, false, not, Option, none, some, List, [], ◌∷◌,
  ◌++◌, length, join, Text, codes, present, is_empty, ltb, leb, if◌then◌else◌,
}

abbrev pub digit : ℕ → ℕ
digit n = b'0' + n

-- `String(n)`; `fuel` is the number of digits that it may take.
unfoldable pub digits_of : (fuel n : ℕ) → Text
digits_of zero n = digit (n % 10) ∷ []
digits_of (suc fuel) n =
    let front = digits_of fuel (n / 10) in
    if ltb n 10 then digit n ∷ [] else front ++ digit (n % 10) ∷ []

-- A number has at most as many digits as it is large.
abbrev pub decimal : ℕ → Text
decimal n = digits_of n n

-- `padStart(2, "0")`
abbrev pub padded : Text → Text
padded [] = codes "00"
padded (c ∷ []) = b'0' ∷ c ∷ []
padded s = s

abbrev pub two_digits : ℕ → Text
two_digits n = padded (decimal n)

unfoldable pub format_timestamp : (pad_hours : Bool) (secs : ℕ) → Text
format_timestamp pad_hours secs =
    let h = secs / 3600 in
    let m = (secs % 3600) / 60 in
    let s = secs % 60 in
    if ltb 0 h
    then (if pad_hours then two_digits h else decimal h)
      ++ (codes ":" ++ (two_digits m ++ (codes ":" ++ two_digits s)))
    else if pad_hours
    then two_digits m ++ (codes ":" ++ two_digits s)
    else decimal m ++ (codes ":" ++ two_digits s)

unfoldable pub format_duration : (secs : ℕ) → Text
format_duration secs =
    let h = secs / 3600 in
    let m = (secs % 3600) / 60 in
    if ltb 0 h
    then decimal h ++ (codes "h " ++ (decimal m ++ codes "m"))
    else decimal m ++ codes "m"

pub record ExportSegment : Type 0 where
  pub start_time : ℕ
  pub display_name : Option Text
  pub speaker_label : Option Text
  pub text : Text

pub record TranscriptExportInput : Type 0 where
  pub episode_title : Text
  pub feed_title : Option Text
  pub published_at : Option Text
  pub duration_secs : Option ℕ
  pub description : Option Text
  pub feed_url : Option Text
  pub feed_website_url : Option Text
  pub feed_description : Option Text
  pub audio_url : Option Text
  pub guid : Option Text
  pub segments : List ExportSegment

-- A line for a text that is there and not empty.
abbrev pub line_if : (label : Text) → Option Text → List Text
line_if label none = []
line_if label (some t) = if is_empty t then [] else (label ++ t) ∷ []

-- `seg.display_name || seg.speaker_label`
abbrev pub speaker_of : ExportSegment → Option Text
speaker_of seg = elim (present seg.display_name) [
  | none ↦ present seg.speaker_label
  | some name ↦ some name
]

abbrev pub text_head : (ts : Text) → Option Text → Text
text_head ts none = codes "[" ++ (ts ++ codes "]")
text_head ts (some speaker) = codes "[" ++ (ts ++ (codes "] " ++ (speaker ++ codes ":")))

abbrev pub segment_text : ExportSegment → List Text
segment_text seg =
    text_head (format_timestamp true seg.start_time) (speaker_of seg) ∷ seg.text ∷ [] ∷ []

abbrev pub segments_text : List ExportSegment → List Text
segments_text [] = []
segments_text (seg ∷ segs) = segment_text seg ++ segments_text segs

abbrev pub markdown_line : (ts : Text) → Option Text → (text : Text) → Text
markdown_line ts none text = codes "- `" ++ (ts ++ (codes "` " ++ text))
markdown_line ts (some speaker) text =
    codes "- `" ++ (ts ++ (codes "` **" ++ (speaker ++ (codes ":** " ++ text))))

abbrev pub segments_markdown : List ExportSegment → List Text
segments_markdown [] = []
segments_markdown (seg ∷ segs) =
    markdown_line (format_timestamp true seg.start_time) (speaker_of seg) seg.text
    ∷ segments_markdown segs

abbrev pub duration_text : Option ℕ → Option Text
duration_text none = none
duration_text (some secs) = if ltb 0 secs then some (format_duration secs) else none

abbrev pub date_text : (format_date : Text → Text) → Option Text → Option Text
date_text format_date none = none
date_text format_date (some t) = if is_empty t then none else some (format_date t)

abbrev pub separator : Text
separator = codes "============================================================"

abbrev newline : Text
newline = 10 ∷ []

abbrev description_lines : Option Text → List Text
description_lines none = []
description_lines (some t) = codes "## Description" ∷ [] ∷ t ∷ [] ∷ []

-- The lines that are pushed, piece by piece.
abbrev pub flat : List (List Text) → List Text
flat [] = []
flat (lines ∷ pieces) = lines ++ flat pieces

-- `format_date` is `formatDate`, which reads the calendar of the locale; it gives a text that is not
-- empty.
module _ (format_date : Text → Text) where
  unfoldable pub build_export_text : TranscriptExportInput → Text
  build_export_text props = join newline (
      flat (
        (separator ∷ codes "PODCAST METADATA" ∷ separator ∷ [])
        ∷ line_if (codes "Podcast:      ") props.feed_title
        ∷ line_if (codes "Website:      ") props.feed_website_url
        ∷ line_if (codes "Feed URL:     ") props.feed_url
        ∷ line_if (codes "Description:  ") props.feed_description
        ∷ ([] ∷ separator ∷ codes "EPISODE METADATA" ∷ separator ∷ [])
        ∷ ((codes "Title:        " ++ props.episode_title) ∷ [])
        ∷ line_if (codes "Published:    ") (date_text format_date props.published_at)
        ∷ line_if (codes "Duration:     ") (duration_text props.duration_secs)
        ∷ line_if (codes "Description:  ") props.description
        ∷ line_if (codes "Audio URL:    ") props.audio_url
        ∷ line_if (codes "Episode GUID: ") props.guid
        ∷ ([] ∷ separator ∷ codes "TRANSCRIPT" ∷ separator ∷ [] ∷ [])
        ∷ segments_text props.segments
        ∷ []))

  unfoldable pub build_export_markdown : TranscriptExportInput → Text
  build_export_markdown props = join newline (
      flat (
        (codes "# Transcript Export" ∷ [] ∷ [])
        ∷ line_if (codes "**Podcast:** ") props.feed_title
        ∷ ((codes "**Episode:** " ++ props.episode_title) ∷ [])
        ∷ line_if (codes "**Published:** ") (date_text format_date props.published_at)
        ∷ line_if (codes "**Duration:** ") (duration_text props.duration_secs)
        ∷ line_if (codes "**Audio URL:** ") props.audio_url
        ∷ line_if (codes "**Episode GUID:** ") props.guid
        ∷ ([] ∷ [])
        ∷ description_lines (present props.description)
        ∷ (codes "## Transcript" ∷ [] ∷ [])
        ∷ segments_markdown props.segments
        ∷ []))
