-- ===== src/Feeds/Tests.antt =====
-- Runs of the two dialogs over a feed's episodes.
use podlog.Base.{
  ◌≡◌, refl, true, false, none, some, [], ◌∷◌, ◌++◌, any, ℕ, Text, codes, trim, is_space, is_empty,
}
use podlog.Feeds.{
  FeedPreview, guids_of, has_guid, every_has, toggle_each, visible, togglable_visible,
}
use podlog.Feeds.Adding.{
  selective, PreviewReply, previewed, AddState, closed, open_modal, change_url, change_mode,
  handle_add_or_preview, submit_step, hear_preview, toggle_all,
}
use podlog.Feeds.Sent
use podlog.Feeds.Sent.{submit_step-sent}
use podlog.Feeds.Extending.{
  both_loaded, MoreState, mounted, hear_load, submit_picks, toggle_all_new,
}
use podlog.Feeds.Extending.Picks
use podlog.Feeds.Extending.Picks.{submit_picks-sent}

abbrev fishing : FeedPreview
fishing = record {
  title = some (codes "Fish");
  episodes =
      record { guid = codes "g1"; title = some (codes "Carp") }
      ∷ record { guid = codes "g2"; title = none }
      ∷ record { guid = codes "g3"; title = some (codes "Pike") }
      ∷ [];
}

abbrev serve_feed : (id : ℕ) (url : Text) → PreviewReply
serve_feed id url = previewed fishing

abbrev same : Text → Text
same t = t

-- The address is typed, the mode picked, the preview loaded, and all episodes under a filter taken.
abbrev chosen : AddState
chosen = toggle_all (togglable_visible same false [] (codes "k") fishing) (
    hear_preview 0 (serve_feed 0 (codes "u"))
      (submit_step (change_mode selective (change_url (codes "u ") (open_modal closed)))).0)

chosen-Reach : Sent.Reach serve_feed same chosen
unfolding open_modal change_url change_mode submit_step handle_add_or_preview hear_preview trim
    is_space
chosen-Reach =
    let s0 = open_modal closed in
    let s1 = change_url (codes "u ") s0 in
    let s2 = change_mode selective s1 in
    let s3 = (submit_step s2).0 in
    let s4 = hear_preview 0 (serve_feed 0 (codes "u")) s3 in
    Sent.next
      (Sent.next
        (Sent.next
          (Sent.next
            (Sent.next (Sent.next Sent.start (Sent.open_it closed))
              (Sent.type_url s0 (codes "u ") refl refl))
            (Sent.pick_mode s1 selective refl refl))
          (Sent.send s2))
        (Sent.hear s3 0 (codes "u") refl))
      (Sent.pick_all s4 fishing (codes "k") refl)

submit_step-sent_example :
    (p : FeedPreview) × (id : ℕ) × (chosen.preview ≡ some p)
    × (serve_feed id (codes "u") ≡ previewed p)
    × (true ≡ true)
    × (some (codes "g3" ∷ []) ≡ some chosen.selected_guids)
    × (is_empty chosen.selected_guids ≡ false)
    × (every_has (guids_of p.episodes) chosen.selected_guids ≡ true)
unfolding open_modal change_url change_mode submit_step handle_add_or_preview hear_preview trim
    is_space toggle_all toggle_each visible togglable_visible
submit_step-sent_example =
    submit_step-sent serve_feed same chosen
      (record { url = codes "u"; mode = selective; selected_guids = some (codes "g3" ∷ []) })
      chosen-Reach refl refl

-- Two episodes are there, and the others are taken.
abbrev picking : MoreState
picking =
    toggle_all_new (togglable_visible same true (codes "g2" ∷ []) [] fishing)
      (hear_load (both_loaded fishing (codes "g2" ∷ [])) mounted)

picking-Reach : Picks.Reach same picking
unfolding hear_load
picking-Reach =
    Picks.next (Picks.next Picks.start (Picks.hear mounted (both_loaded fishing (codes "g2" ∷ []))))
      (Picks.pick_all (hear_load (both_loaded fishing (codes "g2" ∷ [])) mounted) fishing [] refl)

submit_picks-sent_example :
    (p : FeedPreview) × (picking.preview ≡ some p)
    × (is_empty (codes "g1" ∷ codes "g3" ∷ []) ≡ false)
    × (any (has_guid picking.existing_guids) (codes "g1" ∷ codes "g3" ∷ []) ≡ false)
    × (every_has (guids_of p.episodes) (codes "g1" ∷ codes "g3" ∷ []) ≡ true)
    × (every_has (picking.existing_guids ++ (codes "g1" ∷ codes "g3" ∷ [])) picking.selected_guids
        ≡ true)
    × (every_has picking.selected_guids (picking.existing_guids ++ (codes "g1" ∷ codes "g3" ∷ []))
        ≡ true)
unfolding hear_load toggle_all_new toggle_each visible togglable_visible submit_picks trim is_space
submit_picks-sent_example =
    submit_picks-sent same picking (codes "g1" ∷ codes "g3" ∷ []) picking-Reach refl
