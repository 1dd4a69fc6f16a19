-- ===== src/Ask/Frames.antt =====
-- What the loop reads from well-formed frames, cut into chunks.
use podlog.Base.{
  ◌≡◌, refl, sym, ap, ◌∙◌, false, Option, List, [], ◌∷◌, ◌++◌, append_assoc, append-nil, All,
  All-split, All-append, arith, Text, codes, is_empty, ◌==◌,
}
use podlog.Ask.{complete_lines, last_line, on_data, read_line, read_lines, read_chunk, read_chunks}

-- A text without a line break.
abbrev pub IsLine : Text → Type 0
IsLine = All (λ c. (c == 10) ≡ false)

complete_lines-line :
    (line s rest : Text)
    → IsLine s
    → complete_lines line (s ++ (10 ∷ rest)) ≡ (line ++ s) ∷ complete_lines [] rest
unfolding complete_lines
complete_lines-line line [] rest h = ap (λ l. l ∷ complete_lines [] rest) (sym (append-nil line))
complete_lines-line line (c ∷ s) rest (e, h) =
    rw (e, complete_lines)
      (complete_lines-line (line ++ c ∷ []) s rest h
        ∙ ap (λ l. l ∷ complete_lines [] rest) (append_assoc line (c ∷ []) s))

last_line-line :
    (line s rest : Text) → IsLine s → last_line line (s ++ (10 ∷ rest)) ≡ last_line [] rest
unfolding last_line
last_line-line line [] rest h = refl
last_line-line line (c ∷ s) rest (e, h) =
    rw (e, last_line) (last_line-line (line ++ c ∷ []) s rest h)

-- The pieces of a text without line breaks.
complete_lines_of_line : (line s : Text) → IsLine s → complete_lines line s ≡ []
unfolding complete_lines
complete_lines_of_line line [] h = refl
complete_lines_of_line line (c ∷ s) (e, h) =
    rw (e, complete_lines) (complete_lines_of_line (line ++ c ∷ []) s h)

last_line_of_line : (line s : Text) → IsLine s → last_line line s ≡ line ++ s
unfolding last_line
last_line_of_line line [] h = sym (append-nil line)
last_line_of_line line (c ∷ s) (e, h) =
    rw (e, last_line) (last_line_of_line (line ++ c ∷ []) s h ∙ append_assoc line (c ∷ []) s)

pub record Frame : Type 0 where
  pub event : Text
  pub body : Text

pub record IsFrame (f : Frame) : Type 0 where
  pub event_is_line : IsLine f.event
  pub named : is_empty f.event ≡ false
  pub body_is_line : IsLine f.body

abbrev event_line : Frame → Text
event_line f = codes "event: " ++ f.event

abbrev data_line : Frame → Text
data_line f = codes "data: " ++ f.body

-- The frames as the server writes them, each with an empty line behind it.
abbrev pub frames_text : List Frame → Text
frames_text [] = []
frames_text (f ∷ fs) = event_line f ++ (10 ∷ (data_line f ++ (10 ∷ (10 ∷ frames_text fs))))

-- A chunk of each group of frames.
abbrev pub chunks_of : List (List Frame) → List Text
chunks_of [] = []
chunks_of (fs ∷ groups) = frames_text fs ∷ chunks_of groups

abbrev pub all_frames : List (List Frame) → List Frame
all_frames [] = []
all_frames (fs ∷ groups) = fs ++ all_frames groups

event-IsLine : (event : Text) → IsLine event → IsLine (codes "event: " ++ event)
event-IsLine event h = (refl, (refl, (refl, (refl, (refl, (refl, (refl, h)))))))

data-IsLine : (body : Text) → IsLine body → IsLine (codes "data: " ++ body)
data-IsLine body h = (refl, (refl, (refl, (refl, (refl, (refl, h))))))

abbrev frame_lines : List Frame → List Text
frame_lines [] = []
frame_lines (f ∷ fs) = event_line f ∷ data_line f ∷ [] ∷ frame_lines fs

complete_lines-frames :
    (fs : List Frame) → All IsFrame fs → complete_lines [] (frames_text fs) ≡ frame_lines fs
unfolding complete_lines
complete_lines-frames [] h = refl
complete_lines-frames (f ∷ fs) (v, h) =
    complete_lines-line [] (event_line f) (data_line f ++ (10 ∷ (10 ∷ frames_text fs)))
      (event-IsLine f.event v.event_is_line)
    ∙ ap (◌∷◌ (event_line f)) (
        complete_lines-line [] (data_line f) (10 ∷ frames_text fs)
          (data-IsLine f.body v.body_is_line)
        ∙ ap (◌∷◌ (data_line f)) (
            complete_lines-line [] [] (frames_text fs) tt
            ∙ ap (◌∷◌ []) (complete_lines-frames fs h)))

last_line-frames : (fs : List Frame) → All IsFrame fs → last_line [] (frames_text fs) ≡ []
unfolding last_line
last_line-frames [] h = refl
last_line-frames (f ∷ fs) (v, h) =
    last_line-line [] (event_line f) (data_line f ++ (10 ∷ (10 ∷ frames_text fs)))
      (event-IsLine f.event v.event_is_line)
    ∙ (last_line-line [] (data_line f) (10 ∷ frames_text fs) (data-IsLine f.body v.body_is_line)
        ∙ (last_line-line [] [] (frames_text fs) tt ∙ last_line-frames fs h))

module _ {State Data : Type 0} (parse : Text → Option Data)
    (on_event : Text → Data → State → State) where
  -- The state after the frames, one after the other; a body that is no JSON changes nothing.
  abbrev pub handle_all : List Frame → State → State
  handle_all [] state = state
  handle_all (f ∷ fs) state = handle_all fs (on_data parse on_event f.event (parse f.body) state)

  pub handle_all-append :
      (fs gs : List Frame) (state : State)
      → handle_all (fs ++ gs) state ≡ handle_all gs (handle_all fs state)
  handle_all-append [] gs state = refl
  handle_all-append (f ∷ fs) gs state = handle_all-append fs gs _

  read_line-data :
      (event body : Text) (state : State)
      → is_empty event ≡ false
      → read_line parse on_event (codes "data: " ++ body) (event, state)
        ≡ ([], on_data parse on_event event (parse body) state)
  unfolding read_line
  read_line-data [] body state h = ground arith
  read_line-data (c ∷ event) body state h = refl

  read_line-event :
      (event : Text) (waiting : Text × State)
      → read_line parse on_event (codes "event: " ++ event) waiting ≡ (event, waiting.1)
  unfolding read_line
  read_line-event event waiting = refl

  read_line-blank : (waiting : Text × State) → read_line parse on_event [] waiting ≡ waiting
  unfolding read_line
  read_line-blank waiting = refl

  read_lines-frames :
      (fs : List Frame) (state : State)
      → All IsFrame fs
      → read_lines parse on_event (frame_lines fs) ([], state) ≡ ([], handle_all fs state)
  unfolding read_lines
  read_lines-frames [] state h = refl
  read_lines-frames (f ∷ fs) state (v, h) =
      ap (read_lines parse on_event (frame_lines fs)) (
        ap (read_line parse on_event []) (
          ap (read_line parse on_event (data_line f)) (read_line-event f.event ([], state))
          ∙ read_line-data f.event f.body state v.named)
        ∙ read_line-blank _)
      ∙ read_lines-frames fs (on_data parse on_event f.event (parse f.body) state) h

  read_chunk-frames :
      (fs : List Frame) (state : State)
      → All IsFrame fs
      → read_chunk parse on_event (frames_text fs) ([], state) ≡ ([], handle_all fs state)
  unfolding read_chunk
  read_chunk-frames fs state h =
      rw (last_line-frames fs h, complete_lines-frames fs h, read_lines-frames fs state h) refl

  -- However the frames are divided among the chunks, as long as none is cut, the loop has handled
  -- each frame once, in order, and has nothing left in its buffer.
  pub read_chunks-frames :
      (groups : List (List Frame)) (state : State)
      → All IsFrame (all_frames groups)
      → read_chunks parse on_event (chunks_of groups) ([], state)
        ≡ ([], handle_all (all_frames groups) state)
  unfolding read_chunks
  read_chunks-frames [] state h = refl
  read_chunks-frames (fs ∷ groups) state h =
      let (front, back) = All-split IsFrame fs (all_frames groups) h in
      ap (read_chunks parse on_event (chunks_of groups)) (read_chunk-frames fs state front)
      ∙ (read_chunks-frames groups (handle_all fs state) back
          ∙ ap (λ s. ([], s)) (sym (handle_all-append fs (all_frames groups) state)))

  read_chunk-eq :
      (chunk buffer : Text) (state : State) {lines : List Text} {rest : Text}
      → complete_lines [] (buffer ++ chunk) ≡ lines
      → last_line [] (buffer ++ chunk) ≡ rest
      → read_chunk parse on_event chunk (buffer, state)
        ≡ (rest, (read_lines parse on_event lines ([], state)).1)
  unfolding read_chunk
  read_chunk-eq chunk buffer state p q = rw (p, q) refl

  cut_front :
      (event front : Text) (state : State)
      → IsLine event
      → IsLine front
      → let f : Frame = record { event = event; body = front } in
        read_chunk parse on_event (event_line f ++ (10 ∷ data_line f)) ([], state)
        ≡ (data_line f, state)
  unfolding read_lines read_line
  cut_front event front state h k =
      let f : Frame = record { event = event; body = front } in
      let line : IsLine (event_line f) = event-IsLine event h in
      let data_is_line : IsLine (data_line f) = data-IsLine front k in
      read_chunk-eq (event_line f ++ (10 ∷ data_line f)) [] state
        (complete_lines-line [] (event_line f) (data_line f) line
          ∙ ap (◌∷◌ (event_line f)) (complete_lines_of_line [] (data_line f) data_is_line))
        (last_line-line [] (event_line f) (data_line f) line
          ∙ last_line_of_line [] (data_line f) data_is_line)

  cut_back :
      (body back : Text) (state : State)
      → IsLine body
      → IsLine back
      → read_chunk parse on_event (back ++ (10 ∷ 10 ∷ [])) (codes "data: " ++ body, state)
        ≡ ([], state)
  unfolding read_lines read_line complete_lines last_line
  cut_back body back state k l =
      let line : Text = codes "data: " ++ (body ++ back) in
      let whole : IsLine line = data-IsLine (body ++ back) (All-append _ body back k l) in
      let joined : (codes "data: " ++ body) ++ (back ++ (10 ∷ 10 ∷ [])) ≡ line ++ (10 ∷ 10 ∷ []) =
        sym (append_assoc (codes "data: " ++ body) back (10 ∷ 10 ∷ [])) in
      read_chunk-eq (back ++ (10 ∷ 10 ∷ [])) (codes "data: " ++ body) state
        (ap (complete_lines []) joined ∙ complete_lines-line [] line (10 ∷ []) whole)
        (ap (last_line []) joined ∙ last_line-line [] line (10 ∷ []) whole)

  -- A frame whose data is cut by the end of a chunk is lost: the loop forgets the event, and the
  -- data that the next chunk completes changes nothing.
  pub read_chunks-cut :
      (event front back : Text) (state : State)
      → IsLine event
      → IsLine front
      → IsLine back
      → read_chunks parse on_event
          (((codes "event: " ++ event) ++ (10 ∷ (codes "data: " ++ front)))
            ∷ (back ++ (10 ∷ 10 ∷ []))
            ∷ [])
          ([], state)
        ≡ ([], state)
  unfolding read_chunks
  read_chunks-cut event front back state h k l =
      ap (read_chunk parse on_event (back ++ (10 ∷ 10 ∷ []))) (cut_front event front state h k)
      ∙ cut_back front back state k l
