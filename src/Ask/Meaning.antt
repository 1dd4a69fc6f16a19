-- ===== src/Ask/Meaning.antt =====
-- What the frames of a stream mean to the page and to the conversations.
use podlog.Base.{Bool, true, false, Option, none, some, List, [], ◌∷◌, ◌++◌, Text}
use podlog.Ask.{Json, Event, event_of}
use podlog.Ask.Frames.{Frame}

-- The event is acted on.
abbrev pub is_known : Event → Bool
is_known Event.other = false
is_known _ = true

module _ (J : Json) where
  open J use {Value, parse, content}

  abbrev pub handled_as : Event → Option Value → Bool
  handled_as event none = false
  handled_as event (some v) = is_known event

  -- The frame is acted on: its event is known, and its data is JSON.
  abbrev pub is_handled : Frame → Bool
  is_handled f = handled_as (event_of f.event) (parse f.body)

  abbrev pub token_text : Event → Value → Text
  token_text Event.token v = content v
  token_text _ v = []

  abbrev pub token_of : Event → Option Value → Text
  token_of event none = []
  token_of event (some v) = token_text event v

  -- The contents of the token frames, one behind the other.
  abbrev pub tokens : List Frame → Text
  tokens [] = []
  tokens (f ∷ fs) = token_of (event_of f.event) (parse f.body) ++ tokens fs

  abbrev source_value : Event → Value → Option Value → Option Value
  source_value Event.sources v old = some v
  source_value _ v old = old

  abbrev pub source_of : Event → Option Value → Option Value → Option Value
  source_of event none old = old
  source_of event (some v) old = source_value event v old

  -- The data of the last sources frame, or what was there.
  abbrev pub last_sources : List Frame → Option Value → Option Value
  last_sources [] old = old
  last_sources (f ∷ fs) old = last_sources fs (source_of (event_of f.event) (parse f.body) old)
