-- ===== src/Ask/Tests.antt =====
-- The answers of the pipeline.
use podlog.Base.{◌≡◌, refl, Option, none, some, List, [], ◌∷◌, ◌++◌, Text, codes, trim, any}
use podlog.Ask.{Json, finished, streamed, read_chunks}
use podlog.Ask.Frames.{
  Frame, IsFrame, chunks_of, all_frames, handle_all, read_chunks-frames, read_chunks-cut,
}
use podlog.Ask.Meaning.{is_handled, tokens}
use podlog.Ask.Page.{StreamStatus, AskState, ask_submit}
use podlog.Ask.Page.Answer.{ask_submit-answer, is_settled}
use podlog.Ask.Chat.{ChatStatus, ChatState, said, placeholder, chat_submit, docs_submit}
use podlog.Ask.Chat.Conversation.{answered, chat_submit-messages}
use podlog.Ask.Chat.History.{IsRequest, chat_submit-IsRequest}

-- A reading that takes every text for a value.
abbrev json : Json
json = record { Value = Text; parse = λ t. some t; content = λ v. v; message = λ v. some v }

abbrev token_frame : Frame
token_frame = record { event = codes "token"; body = codes "A" }

abbrev done_frame : Frame
done_frame = record { event = codes "done"; body = codes "B" }

token_frame-IsFrame : IsFrame token_frame
token_frame-IsFrame = record {
  event_is_line = (refl, (refl, (refl, (refl, (refl, tt)))));
  named = refl;
  body_is_line = (refl, tt);
}

done_frame-IsFrame : IsFrame done_frame
done_frame-IsFrame = record {
  event_is_line = (refl, (refl, (refl, (refl, tt))));
  named = refl;
  body_is_line = (refl, tt);
}

abbrev groups : List (List Frame)
groups = (token_frame ∷ []) ∷ (token_frame ∷ done_frame ∷ []) ∷ []

-- Keeps the data of the events.
abbrev collect : Text → Text → Text → Text
collect event d seen = seen ++ d

abbrev json_of : Text → Option Text
json_of t = some t

read_chunks-frames_example :
    read_chunks json_of collect (chunks_of groups) ([], [])
    ≡ ([], handle_all json_of collect (all_frames groups) [])
read_chunks-frames_example =
    read_chunks-frames json_of collect groups []
      (token_frame-IsFrame, (token_frame-IsFrame, (done_frame-IsFrame, tt)))

read_chunks-cut_example :
    read_chunks json_of collect
      (((codes "event: " ++ codes "a") ++ (10 ∷ (codes "data: " ++ codes "b")))
        ∷ (codes "c" ++ (10 ∷ 10 ∷ []))
        ∷ [])
      ([], codes "z")
    ≡ ([], codes "z")
read_chunks-cut_example =
    read_chunks-cut json_of collect (codes "a") (codes "b") (codes "c") (codes "z") (refl, tt)
      (refl, tt) (refl, tt)

abbrev page : AskState json
page = record { answer = []; sources = none; status = StreamStatus.idle; error_msg = [] }

ask_submit-answer_example :
    let s = ask_submit json (codes "why") (streamed (chunks_of groups) finished) page in
    (s.answer ≡ tokens json (all_frames groups))
    × (is_settled s.status ≡ any (is_handled json) (all_frames groups))
unfolding trim
ask_submit-answer_example =
    ask_submit-answer json (codes "why") groups page refl
      (token_frame-IsFrame, (token_frame-IsFrame, (done_frame-IsFrame, tt)))

abbrev conversation : ChatState json
conversation = record {
  messages = said json (codes "who") ∷ placeholder json ∷ [];
  status = ChatStatus.idle;
  error_msg = [];
}

chat_submit-messages_example :
    let response = streamed (chunks_of groups) finished in
    let messages =
      conversation.messages
      ++ said json (trim (codes " why"))
        ∷ answered json (all_frames groups) (placeholder json)
        ∷ [] in
    ((chat_submit json (codes " why") response conversation).1.messages ≡ messages)
    × ((docs_submit json (codes " why") response conversation).1.messages ≡ messages)
unfolding trim
chat_submit-messages_example =
    chat_submit-messages json (codes " why") groups conversation refl
      (token_frame-IsFrame, (token_frame-IsFrame, (done_frame-IsFrame, tt)))

chat_submit-IsRequest_example :
    IsRequest json
      (trim (codes "why"))
      conversation.messages
      (chat_submit json (codes "why") (streamed [] finished) conversation).0
    × IsRequest json
        (trim (codes "why"))
        conversation.messages
        (docs_submit json (codes "why") (streamed [] finished) conversation).0
unfolding trim
chat_submit-IsRequest_example =
    chat_submit-IsRequest json (codes "why") (streamed [] finished) conversation
