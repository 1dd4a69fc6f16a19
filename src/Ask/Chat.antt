-- ===== src/Ask/Chat.antt =====
-- apps/web/src/components/EpisodeChat.tsx and DocsAskBubble.tsx: a conversation, its history and
-- `handleSubmit`. The two differ in the request and in the text for an answer that is not ok.
pub mod Conversation
pub mod History
use podlog.Base.{
  ℕ, ◌-◌, Bool, true, false, not, Option, none, some, List, [], ◌∷◌, ◌++◌, map, keep, drop, length,
  Text, codes, trim, is_empty, if◌then◌else◌,
}
use podlog.Ask.{
  Json, Ending, finished, aborted, broken, Response, refused, streamed, message_or, Event, event_of,
  read_chunks,
}

pub data Role : Type 0 where
  user assistant : Role

pub data ChatStatus : Type 0 where
  idle connecting streaming error : ChatStatus

abbrev pub max_history_messages : ℕ
max_history_messages = 8

module _ (J : Json) where
  open J use {Value, parse, content, message}

  pub record Message : Type 0 where
    pub role : Role
    pub content : Text
    pub sources : Option Value

  pub record ChatState : Type 0 where
    pub messages : List Message
    pub status : ChatStatus
    pub error_msg : Text

  -- What a submission sends besides the episode and the model.
  pub record ChatRequest : Type 0 where
    pub question : Text
    pub history : List (Role × Text)

  -- `.slice(-n)`
  abbrev pub last_ones : ℕ → List Message → List Message
  last_ones n ms = drop (length ms - n) ms

  abbrev pub has_content : Message → Bool
  has_content m = not (is_empty m.content)

  unfoldable pub prior_history : List Message → List (Role × Text)
  prior_history ms =
      map (λ m. (m.role, m.content)) (last_ones max_history_messages (keep has_content ms))

  -- `next[next.length - 1] = ...`
  abbrev pub update_last : (Message → Message) → List Message → List Message
  update_last f [] = []
  update_last f (m ∷ []) = f m ∷ []
  update_last f (m ∷ n ∷ ms) = m ∷ update_last f (n ∷ ms)

  abbrev pub done_status : ChatStatus → ChatStatus
  done_status error = error
  done_status _ = idle

  abbrev pub chat_change : Event → Value → ChatState → ChatState
  chat_change Event.sources v s = record s {
    messages = update_last (λ m. record m { sources = some v }) s.messages;
    status = streaming;
  }
  chat_change Event.token v s = record s {
    messages = update_last (λ m. record m { content = m.content ++ content v }) s.messages;
    status = streaming;
  }
  chat_change Event.failure v s = record s {
    error_msg = message_or (message v) (codes "Unknown error");
    status = error;
  }
  chat_change Event.done v s = record s { status = done_status s.status }
  chat_change Event.other v s = s

  abbrev pub chat_event : (event : Text) → Value → ChatState → ChatState
  chat_event event = chat_change (event_of event)

  abbrev pub finish_status : ChatStatus → ChatStatus
  finish_status streaming = idle
  finish_status s = s

  abbrev pub chat_end : Ending → ChatState → ChatState
  chat_end finished s = record s { status = finish_status s.status }
  chat_end aborted s = s
  chat_end broken s = record s {
    status = error;
    error_msg = codes "Connection failed. Is the pipeline running?";
  }

  abbrev pub chat_respond : (unreachable : Text) → Response → ChatState → ChatState
  chat_respond unreachable refused s = record s { status = error; error_msg = unreachable }
  chat_respond unreachable (streamed chunks ending) s =
      chat_end ending (read_chunks parse chat_event chunks ([], s)).1

  abbrev pub said : Text → Message
  said q = record { role = user; content = q; sources = none }

  abbrev pub placeholder : Message
  placeholder = record { role = assistant; content = []; sources = none }

  abbrev pub opened : (q : Text) → ChatState → ChatState
  opened q s = record {
    messages = s.messages ++ said q ∷ placeholder ∷ [];
    status = connecting;
    error_msg = [];
  }

  -- A submission, with the request that it sends, if any, and what this will be answered.
  abbrev pub submit :
      (unreachable input : Text) → Response → ChatState → Option ChatRequest × ChatState
  submit unreachable input response s =
      let q = trim input in
      if is_empty q then (none, s) else (
        some (record { question = q; history = prior_history s.messages }),
        chat_respond unreachable response (opened q s),
      )

  unfoldable pub chat_submit :
      (input : Text) → Response → ChatState → Option ChatRequest × ChatState
  chat_submit = submit (codes "Failed to connect to the pipeline API.")

  unfoldable pub docs_submit :
      (input : Text) → Response → ChatState → Option ChatRequest × ChatState
  docs_submit = submit (codes "Failed to reach the documentation service.")
