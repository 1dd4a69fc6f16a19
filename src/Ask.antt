-- ===== src/Ask.antt =====
-- The answers that the pipeline streams: the loop that reads server-sent events, which
-- apps/web/src/app/ask/page.tsx, components/EpisodeChat.tsx and components/DocsAskBubble.tsx share.
-- A chunk is what `decoder.decode` gives for a read; `JSON.parse` and the values it returns are
-- parameters, with `none` for text that it refuses.
pub mod Frames
pub mod Meaning
pub mod Page
pub mod Chat
mod Tests
use podlog.Base.{
  ℕ, Bool, true, false, not, ◌&&◌, Option, none, some, List, [], ◌∷◌, ◌++◌, Text, codes, text_eq,
  drop, is_prefix, is_empty, ◌==◌, if◌then◌else◌,
}

-- `JSON.parse`, and what the code reads of the values: `content` is `data.content` as a text, and
-- `message` is `data.message` where it is a text that is not empty. A value that is null, at which
-- the code throws, is none of these.
pub record Json : Type 1 where
  pub Value : Type 0
  pub parse : Text → Option Value
  pub content : Value → Text
  pub message : Value → Option Text

-- How the reading of a response ends: the stream is over, the call was aborted, or it broke.
pub data Ending : Type 0 where
  finished aborted broken : Ending

-- The answer of `fetch`: not ok or without a body, or a body. A `fetch` that is rejected gives a
-- body without chunks that was aborted or broke.
pub data Response : Type 0 where
  refused : Response
  streamed : List Text → Ending → Response

-- The comparisons of `currentEvent`, which are made in this order.
pub data Event : Type 0 where
  sources token failure done other : Event

unfoldable pub event_of : Text → Event
event_of name =
    if text_eq name (codes "sources")
    then sources
    else if text_eq name (codes "token")
    then token
    else if text_eq name (codes "error")
    then failure
    else if text_eq name (codes "done")
    then done
    else other

abbrev pub message_or : Option Text → Text → Text
message_or none d = d
message_or (some s) d = s

-- `buffer.split("\n")` without the last piece, which `pop` takes off; `line` is what the first
-- piece has so far.
unfoldable pub complete_lines : (line : Text) → Text → List Text
complete_lines line [] = []
complete_lines line (c ∷ s) = elim (c == 10) [
  | true ↦ line ∷ complete_lines [] s
  | false ↦ complete_lines (line ++ c ∷ []) s
]

-- The last piece.
unfoldable pub last_line : (line : Text) → Text → Text
last_line line [] = line
last_line line (c ∷ s) = elim (c == 10) [
  | true ↦ last_line [] s
  | false ↦ last_line (line ++ c ∷ []) s
]

-- `parse` is `JSON.parse`, and `on_event` the state's change by an event and its data.
module _ {State Data : Type 0} (parse : Text → Option Data)
    (on_event : Text → Data → State → State) where
  abbrev pub on_data : (event : Text) → Option Data → State → State
  on_data event none state = state
  on_data event (some d) state = on_event event d state

  -- A line, with the event that is waiting for its data.
  unfoldable pub read_line : (line : Text) → Text × State → Text × State
  read_line line (current_event, state) =
      if is_prefix (codes "event: ") line
      then (drop 7 line, state)
      else if is_prefix (codes "data: ") line && not (is_empty current_event)
      then ([], on_data current_event (parse (drop 6 line)) state)
      else (current_event, state)

  unfoldable pub read_lines : (lines : List Text) → Text × State → Text × State
  read_lines [] waiting = waiting
  read_lines (line ∷ lines) waiting = read_lines lines (read_line line waiting)

  -- A round of the loop, with the buffer. No event is waiting at its start.
  unfoldable pub read_chunk : (chunk : Text) → Text × State → Text × State
  read_chunk chunk (buffer, state) = (
    last_line [] (buffer ++ chunk),
    (read_lines (complete_lines [] (buffer ++ chunk)) ([], state)).1,
  )

  unfoldable pub read_chunks : (chunks : List Text) → Text × State → Text × State
  read_chunks [] reading = reading
  read_chunks (chunk ∷ chunks) reading = read_chunks chunks (read_chunk chunk reading)
