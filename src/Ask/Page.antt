-- ===== src/Ask/Page.antt =====
-- apps/web/src/app/ask/page.tsx: the state of the Ask page and `handleSubmit`. The text
-- of the question's field is an argument, and the model and the feeds chosen are not kept.
pub mod Answer
use podlog.Base.{
  Bool, true, false, Option, none, some, List, [], ◌∷◌, ◌++◌, Text, codes, trim, is_empty,
  if◌then◌else◌,
}
use podlog.Ask.{
  Event, event_of, Json, Ending, finished, aborted, broken, Response, refused, streamed, message_or,
  read_chunks,
}

pub data StreamStatus : Type 0 where
  idle connecting streaming done error : StreamStatus

module _ (J : Json) where
  open J use {Value, parse, content, message}

  -- `sources` is `none` for the empty list that a question begins with.
  pub record AskState : Type 0 where
    pub answer : Text
    pub sources : Option Value
    pub status : StreamStatus
    pub error_msg : Text

  abbrev pub done_status : StreamStatus → StreamStatus
  done_status error = error
  done_status _ = done

  -- What an event does with its data.
  abbrev pub ask_change : Event → Value → AskState → AskState
  ask_change Event.sources v s = record s { sources = some v; status = streaming }
  ask_change Event.token v s = record s { status = streaming; answer = s.answer ++ content v }
  ask_change Event.failure v s = record s {
    error_msg = message_or (message v) (codes "Unknown error");
    status = error;
  }
  ask_change Event.done v s = record s { status = done_status s.status }
  ask_change Event.other v s = s

  abbrev pub ask_event : (event : Text) → Value → AskState → AskState
  ask_event event = ask_change (event_of event)

  -- `setStatus((s) => (s === "streaming" ? "done" : s))`
  abbrev pub finish_status : StreamStatus → StreamStatus
  finish_status streaming = done
  finish_status s = s

  abbrev pub ask_end : Ending → AskState → AskState
  ask_end finished s = record s { status = finish_status s.status }
  ask_end aborted s = s
  ask_end broken s = record s {
    status = error;
    error_msg =
        if is_empty s.error_msg
        then codes "Connection failed. Is the pipeline running?"
        else s.error_msg;
  }

  abbrev pub started : AskState
  started = record { answer = []; sources = none; status = connecting; error_msg = [] }

  abbrev pub ask_respond : Response → AskState → AskState
  ask_respond refused s = record s {
    status = error;
    error_msg = codes "Failed to connect to the pipeline API.";
  }
  ask_respond (streamed chunks ending) s =
      ask_end ending (read_chunks parse ask_event chunks ([], s)).1

  -- `handleSubmit`, with what the request will be answered.
  unfoldable pub ask_submit : (question : Text) → Response → AskState → AskState
  ask_submit question response s =
      if is_empty (trim question) then s else ask_respond response started

  -- `handleClear`
  abbrev pub ask_clear : AskState → AskState
  ask_clear s = record { answer = []; sources = none; status = idle; error_msg = [] }
