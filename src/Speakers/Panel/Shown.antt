-- ===== src/Speakers/Panel/Shown.antt =====
-- What the page shows behind the requests of a card.
use podlog.Base.{
  ℕ, ◌≡◌, refl, sym, ap, ◌∙◌, Bool, true, false, Option, none, some, [], ◌∷◌, keep, Text, is_empty,
  trim, trim_idem, present, arith, if◌then◌else◌, Bool-cases, inl, inr,
}
use podlog.Speakers.{SpeakerRole, Store}
use podlog.Speakers.Transaction.{Db}
use podlog.Speakers.Naming.{
  absent, NameReply, NameAnswers, save_name, save_cache, name_transaction, name_valid, name_fields,
  name_speaker,
}
use podlog.Speakers.View.{of_episode, get_segments, handle_renamed}
use podlog.Speakers.View.Renamed.{map-view-renamed}
use podlog.Speakers.Panel.{
  Trip, round, never_sent, reply_lost, is_saved, connection, persist_display_name,
}

abbrev pub is_lost : Trip → Bool
is_lost reply_lost = true
is_lost _ = false

module _ {Turns : Type 0} (lower : Text → Text) (now : ℕ) where
  -- The tables with the name.
  abbrev named_store :
      (episode_id label name : Text) (change : Option (Option SpeakerRole))
      → Store Turns
      → Store Turns
  named_store e l d change s = (save_cache lower now e l d (save_name lower now e l d change s).1).1

  abbrev IsSaving :
      (episode_id label name : Text) (change : Option (Option SpeakerRole))
      → Store Turns
      → Option NameReply × Db (Store Turns)
      → Type 0
  IsSaving e l d change s (reply, db) =
      db.committed ≡ (if is_saved reply then named_store e l d change s else s)

  name_valid-IsSaving :
      (n b u k c w : Bool) (e l d : Text) (change : Option (Option SpeakerRole)) (s : Store Turns)
      → let answers : NameAnswers = record {
        connect = n;
        begin = b;
        upsert_name = u;
        upsert_cache = k;
        commit = c;
        rollback = w;
      } in
        IsSaving e l d change s (name_valid lower now answers e l d change (connection s))
  unfolding name_transaction
  name_valid-IsSaving false b u k c w e l d change s = refl
  name_valid-IsSaving true false u k c true e l d change s = refl
  name_valid-IsSaving true false u k c false e l d change s = refl
  name_valid-IsSaving true true false k c true e l d change s = refl
  name_valid-IsSaving true true false k c false e l d change s = refl
  name_valid-IsSaving true true true false c true e l d change s = refl
  name_valid-IsSaving true true true false c false e l d change s = refl
  name_valid-IsSaving true true true true false true e l d change s = refl
  name_valid-IsSaving true true true true false false e l d change s = refl
  name_valid-IsSaving true true true true true w e l d change s = refl

  -- The page behind a request that was answered so.
  abbrev IsShown : (e l d : Text) → Store Turns → Option NameReply × Db (Store Turns) → Type 0
  IsShown e l d s (reply, db) =
      (if is_saved reply then handle_renamed l d (get_segments e s) else get_segments e s)
      ≡ get_segments e db.committed

  get_segments-named_store :
      (e l d : Text) (s : Store Turns)
      → handle_renamed l d (get_segments e s) ≡ get_segments e (named_store e l d none s)
  unfolding handle_renamed get_segments
  get_segments-named_store e l d s =
      sym (map-view-renamed e l d s.speaker_names (keep (of_episode e) s.segments))

  IsSaving→IsShown :
      (e l d : Text) (s : Store Turns) (saved : Bool) (after : Store Turns)
      → after ≡ (if saved then named_store e l d none s else s)
      → (if saved then handle_renamed l d (get_segments e s) else get_segments e s)
        ≡ get_segments e after
  IsSaving→IsShown e l d s true after h =
      get_segments-named_store e l d s ∙ ap (get_segments e) (sym h)
  IsSaving→IsShown e l d s false after h = ap (get_segments e) (sym h)

  name_fields-IsShown :
      (answers : NameAnswers) (e : Text) (label : Option Text) (l d : Text) (s : Store Turns)
      → label ≡ present (some l)
      → IsShown e l
          (trim d)
          s
          (name_fields lower now answers e label (some (trim d)) absent (connection s))
  name_fields-IsShown answers e none l d s h = refl
  name_fields-IsShown answers e (some k) [] d s h = ground arith
  name_fields-IsShown answers e (some k) (c ∷ l) d s h = elim (Bool-cases (is_empty (trim d))) [
    | inl b ↦ rw (trim_idem d, b) refl
    | inr b ↦
        let same : k ≡ (c ∷ l) = ground (arith, h) in
        let result = name_valid lower now answers e (c ∷ l) (trim d) none (connection s) in
        rw (trim_idem d, b, same)
          (IsSaving→IsShown e (c ∷ l) (trim d) s (is_saved result.0) result.1.committed (
            name_valid-IsSaving answers.connect answers.begin answers.upsert_name
              answers.upsert_cache answers.commit answers.rollback e (c ∷ l) (trim d) none s))
  ]

  name_speaker-IsShown :
      (answers : NameAnswers) (episode_id speaker_label value : Text) (s : Store Turns)
      → let (page, tables) =
          persist_display_name lower now round answers episode_id speaker_label
            (trim value)
            (get_segments episode_id s, s) in
        page ≡ get_segments episode_id tables
  unfolding persist_display_name name_speaker
  name_speaker-IsShown answers e l v s = name_fields-IsShown answers e (present (some l)) l v s refl

  -- Whatever statement of the route fails on the way, a name that a card sends leaves the page showing
  -- the segments as they are in the tables, if it showed them before, the request not being sent
  -- included. Only where the reply is lost behind the route, the page shows them as they were before
  -- the request, whatever the route has made of the tables.
  pub persist_display_name-shows :
      (trip : Trip) (answers : NameAnswers) (episode_id speaker_label value : Text)
      (s : Store Turns)
      → let (page, tables) =
          persist_display_name lower now trip answers episode_id speaker_label
            (trim value)
            (get_segments episode_id s, s) in
        page ≡ get_segments episode_id (if is_lost trip then s else tables)
  unfolding persist_display_name
  persist_display_name-shows round answers e l v s = name_speaker-IsShown answers e l v s
  persist_display_name-shows never_sent answers e l v s = refl
  persist_display_name-shows reply_lost answers e l v s = refl
