-- ===== src/Ask/Chat/Conversation.antt =====
-- What an exchange adds to a conversation.
use podlog.Base.{
  ◌≡◌, refl, sym, ap, ◌∙◌, false, Option, none, some, List, [], ◌∷◌, ◌++◌, append_assoc, append-nil,
  All, Text, codes, trim, is_empty,
}
use podlog.Ask.{Json, Event, event_of, finished, streamed, on_data}
use podlog.Ask.Frames.{Frame, IsFrame, chunks_of, all_frames, handle_all, read_chunks-frames}
use podlog.Ask.Meaning.{token_of, tokens, source_of, last_sources}
use podlog.Ask.Chat.{
  Message, ChatState, update_last, chat_change, chat_event, said, placeholder, opened, submit,
  chat_submit, docs_submit,
}

module _ (J : Json) where
  open J use {Value, parse}

  -- A message with more of its answer.
  abbrev extended : Event → Option Value → Message J → Message J
  extended event body m = record m {
    content = m.content ++ token_of J event body;
    sources = source_of J event body m.sources;
  }

  update_last-append :
      (f : Message J → Message J) (ms : List (Message J)) (m : Message J)
      → update_last J f (ms ++ m ∷ []) ≡ ms ++ f m ∷ []
  update_last-append f [] m = refl
  update_last-append f (n ∷ []) m = refl
  update_last-append f (n ∷ k ∷ ms) m = ap (◌∷◌ n) (update_last-append f (k ∷ ms) m)

  abbrev Ends : List (Message J) → Message J → ChatState J → Type 0
  Ends ms m s = s.messages ≡ ms ++ m ∷ []

  same_content :
      (m : Message J) (found : Option Value)
      → record m { sources = found } ≡ record m { content = m.content ++ []; sources = found }
  same_content m found =
      ap (λ c. record m { content = c; sources = found }) (sym (append-nil m.content))

  unchanged :
      (ms : List (Message J)) (m : Message J) (s : ChatState J)
      → Ends ms m s
      → s.messages ≡ ms ++ (record m { content = m.content ++ [] }) ∷ []
  unchanged ms m s h = h ∙ ap (λ n. ms ++ n ∷ []) (same_content m m.sources)

  change-Ends :
      (event : Event) (v : Value) (ms : List (Message J)) (m : Message J) (s : ChatState J)
      → Ends ms m s
      → Ends ms (extended event (some v) m) (chat_change J event v s)
  change-Ends Event.sources v ms m s h =
      ap (update_last J (λ n. record n { sources = some v })) h
      ∙ (update_last-append (λ n. record n { sources = some v }) ms m
          ∙ ap (λ n. ms ++ n ∷ []) (same_content m (some v)))
  change-Ends Event.token v ms m s h =
      ap (update_last J (λ n. record n { content = n.content ++ J.content v })) h
      ∙ update_last-append (λ n. record n { content = n.content ++ J.content v }) ms m
  change-Ends Event.failure v ms m s h = unchanged ms m s h
  change-Ends Event.done v ms m s h = unchanged ms m s h
  change-Ends Event.other v ms m s h = unchanged ms m s h

  on_data-Ends :
      (event : Text) (body : Option Value) (ms : List (Message J)) (m : Message J) (s : ChatState J)
      → Ends ms m s
      → Ends ms (extended (event_of event) body m) (on_data parse (chat_event J) event body s)
  on_data-Ends event none ms m s h = unchanged ms m s h
  on_data-Ends event (some v) ms m s h = change-Ends (event_of event) v ms m s h

  -- The message after the frames.
  abbrev pub answered : List Frame → Message J → Message J
  answered fs m = record m {
    content = m.content ++ tokens J fs;
    sources = last_sources J fs m.sources;
  }

  handle_all-Ends :
      (fs : List Frame) (ms : List (Message J)) (m : Message J) (s : ChatState J)
      → Ends ms m s
      → Ends ms (answered fs m) (handle_all parse (chat_event J) fs s)
  handle_all-Ends [] ms m s h = unchanged ms m s h
  handle_all-Ends (f ∷ fs) ms m s h =
      let step = on_data-Ends f.event (parse f.body) ms m s h in
      let rest =
        handle_all-Ends fs ms (extended (event_of f.event) (parse f.body) m)
          (on_data parse (chat_event J) f.event (parse f.body) s) step in
      rest
      ∙ ap (λ c. ms ++ (record m { content = c; sources = last_sources J (f ∷ fs) m.sources }) ∷ [])
          (append_assoc m.content _ _)

  -- What an exchange leaves of a conversation: the question and the answered message at its end.
  submit-messages :
      (unreachable input : Text) (groups : List (List Frame)) (old : ChatState J)
      → is_empty (trim input) ≡ false
      → All IsFrame (all_frames groups)
      → (submit J unreachable input (streamed (chunks_of groups) finished) old).1.messages
        ≡ old.messages ++ said J (trim input) ∷ answered (all_frames groups) (placeholder J) ∷ []
  submit-messages unreachable input groups old h k =
      let fs = all_frames groups in
      let start = opened J (trim input) old in
      rw (h, read_chunks-frames parse (chat_event J) groups start k)
        (handle_all-Ends fs (old.messages ++ said J (trim input) ∷ []) (placeholder J) start
            (sym (append_assoc old.messages (said J (trim input) ∷ []) (placeholder J ∷ [])))
          ∙ append_assoc old.messages (said J (trim input) ∷ []) (answered fs (placeholder J) ∷ []))

  -- However the frames of an answer are divided among the chunks, none of which cuts one, a
  -- question that is not blank adds two messages to a conversation of either component and changes
  -- none of the old ones: the trimmed question, and a message with the contents of the token frames,
  -- one behind the other, and with the data of the last sources frame.
  pub chat_submit-messages :
      (input : Text) (groups : List (List Frame)) (old : ChatState J)
      → is_empty (trim input) ≡ false
      → All IsFrame (all_frames groups)
      → let response = streamed (chunks_of groups) finished in
        let messages =
          old.messages ++ said J (trim input) ∷ answered (all_frames groups) (placeholder J) ∷ [] in
        ((chat_submit J input response old).1.messages ≡ messages)
        × ((docs_submit J input response old).1.messages ≡ messages)
  unfolding chat_submit docs_submit
  chat_submit-messages input groups old h k = (
    submit-messages (codes "Failed to connect to the pipeline API.") input groups old h k,
    submit-messages (codes "Failed to reach the documentation service.") input groups old h k,
  )
