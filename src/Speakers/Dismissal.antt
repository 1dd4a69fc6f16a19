-- ===== src/Speakers/Dismissal.antt =====
-- apps/web/src/app/api/episodes/[id]/speakers/route.ts: dismissing a name that no segment uses.
use podlog.Base.{
  ℕ, zero, suc, Bool, false, not, ◌&&◌, Option, none, some, List, keep, any, length, Text, text_eq,
  present,
}
use podlog.Speakers.{SegmentRow, NameRow, Store}
use podlog.Speakers.Transaction.{Try, pure, ◌>>=◌, try_catch, query}
use podlog.Speakers.Naming.{NameReply, missing_field, failed, no_name, saved, is_name_of}

abbrev pub is_used : (episode_id label : Text) → List SegmentRow → Bool
is_used episode_id label = any (λ (s : SegmentRow).
    text_eq s.episode_id episode_id
    && elim s.speaker_label [ none ↦ false | some l ↦ text_eq l label ])

module _ {Turns : Type 0} where
  abbrev pub is_dismissed : Store Turns → (episode_id label : Text) → NameRow → Bool
  is_dismissed s episode_id label n =
      is_name_of episode_id label n && not (is_used episode_id label s.segments)

  abbrev pub delete_unused : (episode_id label : Text) → Store Turns → ℕ × Store Turns
  delete_unused episode_id label s = (
    length (keep (is_dismissed s episode_id label) s.speaker_names),
    record s {
      speaker_names = keep (λ n. not (is_dismissed s episode_id label n)) s.speaker_names;
    },
  )

  abbrev pub dismiss_valid :
      (answered : Bool) (episode_id : Text) → Option Text → Try (Store Turns) NameReply
  dismiss_valid answered episode_id none = pure missing_field
  dismiss_valid answered episode_id (some label) =
      try_catch
        (query answered (delete_unused episode_id label) >>= λ count.
          pure (elim count [ zero ↦ no_name | suc _ ↦ saved ]))
        (pure failed)

  -- `DELETE`, with the label of the body. `none` is a body that is no JSON.
  unfoldable pub dismiss_name :
      (answered : Bool) (episode_id : Text) → Option (Option Text) → Try (Store Turns) NameReply
  dismiss_name answered episode_id none = pure failed
  dismiss_name answered episode_id (some label) = dismiss_valid answered episode_id (present label)
