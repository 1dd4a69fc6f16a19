-- ===== src/Ask/Page/Answer.antt =====
-- What the Ask page shows at the end of a stream.
use podlog.Base.{
  ◌≡◌, refl, sym, ap, ◌∙◌, Bool, true, false, not, ◌&&◌, Option, none, some, List, [], ◌∷◌, ◌++◌,
  append_assoc, append-nil, All, any, Text, trim, is_empty, arith,
}
use podlog.Ask.{Event, event_of, Json, finished, streamed, on_data}
use podlog.Ask.Frames.{Frame, IsFrame, chunks_of, all_frames, handle_all, read_chunks-frames}
use podlog.Ask.Meaning.{handled_as, is_handled, token_of, tokens}
use podlog.Ask.Page.{
  finish_status, StreamStatus, idle, connecting, streaming, done, error, AskState, ask_change,
  ask_event, started, ask_submit,
}

abbrev pub is_settled : StreamStatus → Bool
is_settled done = true
is_settled error = true
is_settled _ = false

abbrev is_waiting : StreamStatus → Bool
is_waiting idle = true
is_waiting connecting = true
is_waiting _ = false

module _ (J : Json) where
  open J use {Value, parse}

  abbrev IsStep : Event → Option Value → (old new : AskState J) → Type 0
  IsStep event body old new =
      (new.answer ≡ old.answer ++ token_of J event body)
      × (is_waiting new.status ≡ (is_waiting old.status && not (handled_as J event body)))

  change-IsStep :
      (event : Event) (v : Value) (s : AskState J)
      → IsStep event (some v) s (ask_change J event v s)
  change-IsStep Event.sources v s = (sym (append-nil s.answer), ground arith)
  change-IsStep Event.token v s = (refl, ground arith)
  change-IsStep Event.failure v s = (sym (append-nil s.answer), ground arith)
  change-IsStep Event.done v s = (sym (append-nil s.answer), ground arith)
  change-IsStep Event.other v s = (sym (append-nil s.answer), ground arith)

  on_data-IsStep :
      (event : Text) (body : Option Value) (s : AskState J)
      → IsStep (event_of event) body s (on_data parse (ask_event J) event body s)
  on_data-IsStep event none s = (sym (append-nil s.answer), ground arith)
  on_data-IsStep event (some v) s = change-IsStep (event_of event) v s

  handle_all-IsStep :
      (fs : List Frame) (s : AskState J)
      → let new = handle_all parse (ask_event J) fs s in
        (new.answer ≡ s.answer ++ tokens J fs)
        × (is_waiting new.status ≡ (is_waiting s.status && not (any (is_handled J) fs)))
  handle_all-IsStep [] s = (sym (append-nil s.answer), ground arith)
  handle_all-IsStep (f ∷ fs) s =
      let (a, b) = on_data-IsStep f.event (parse f.body) s in
      let (c, d) = handle_all-IsStep fs (on_data parse (ask_event J) f.event (parse f.body) s) in
      (c ∙ (ap (λ t. t ++ tokens J fs) a ∙ append_assoc s.answer _ _), ground (arith, b, d))

  settled-finish : (t : StreamStatus) → is_settled (finish_status J t) ≡ not (is_waiting t)
  settled-finish idle = refl
  settled-finish connecting = refl
  settled-finish streaming = refl
  settled-finish done = refl
  settled-finish error = refl

  -- Where a question that is not blank is answered by frames, none of which is cut by the end of a
  -- chunk, the page shows the contents of the token frames, one behind the other, and it has come
  -- to an end, done or with an error, exactly where it acted on some frame: a stream of which it
  -- understands nothing leaves it waiting.
  pub ask_submit-answer :
      (question : Text) (groups : List (List Frame)) (old : AskState J)
      → is_empty (trim question) ≡ false
      → All IsFrame (all_frames groups)
      → let s = ask_submit J question (streamed (chunks_of groups) finished) old in
        (s.answer ≡ tokens J (all_frames groups))
        × (is_settled s.status ≡ any (is_handled J) (all_frames groups))
  unfolding ask_submit
  ask_submit-answer question groups old h k =
      let (a, b) = handle_all-IsStep (all_frames groups) (started J) in
      rw (h, read_chunks-frames parse (ask_event J) groups (started J) k)
        (
          a,
          settled-finish (handle_all parse (ask_event J) (all_frames groups) (started J)).status
              ∙ ground (arith, b),
        )
