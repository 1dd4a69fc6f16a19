-- ===== src/Feeds/Previews.antt =====
-- The dialog that adds a feed: each step keeps what is known of the load that runs and of what is
-- shown.
use mathlib.Core.Path.{subst}
use podlog.Base.{
  ℕ, ◌≡◌, refl, sym, ap, ◌∙◌, Bool, true, false, not, ◌&&◌, Option, none, some, List, [], ◌∷◌, ◌++◌,
  length, get_elem?, Text, trim, Bool-cases, inl, inr, arith,
}
use podlog.Feeds.{FeedPreview, guids_of, has_guid}
use podlog.Feeds.Adding.{
  is_selective, PreviewReply, previewed, unavailable, AddState, begin_preview, reset_modal,
  handle_add_or_preview, is_disabled, submit_step, is_request, end_preview, hear_preview, go_back,
}

get-last : (xs : List Text) (x : Text) → get_elem? (xs ++ x ∷ []) (length xs) ≡ some x
get-last [] x = refl
get-last (y ∷ xs) x = get-last xs x

abbrev pub AreIn : (selected guids : List Text) → Type 0
AreIn selected guids = (g : Text) → has_guid selected g ≡ true → has_guid guids g ≡ true

module _ (serve : (id : ℕ) (url : Text) → PreviewReply) where
  -- The load that runs is for the address in the form.
  abbrev pub Pending : AddState → Option ℕ → Type 0
  Pending s none = s.preview_loading ≡ false
  Pending s (some id) =
      (get_elem? s.begun id ≡ some (trim s.new_url))
      × (is_selective s.add_mode ≡ true)
      × (s.preview_loading ≡ true)
      × (s.preview_step ≡ false)

  -- What is shown was served for the address in the form.
  abbrev pub Shows : AddState → Option FeedPreview → Type 0
  Shows s none = (s.preview_step ≡ false) × (s.selected_guids ≡ [])
  Shows s (some p) =
      ((id : ℕ) × (serve id (trim s.new_url) ≡ previewed p))
      × (is_selective s.add_mode ≡ true)
      × AreIn s.selected_guids (guids_of p.episodes)
      × (s.preview_step ≡ true)

  pub record IsSound (s : AddState) : Type 0 where
    pub pending : Pending s s.preview_request
    pub shows : Shows s s.preview

  not_loading : (s : AddState) (o : Option ℕ) → Pending s o → s.preview_loading ≡ false → o ≡ none
  not_loading s none h e = refl
  not_loading s (some id) (u, m, l, t) e = cc

  nothing_shown :
      (s : AddState) (o : Option FeedPreview)
      → Shows s o
      → s.preview_step ≡ false
      → (o ≡ none) × (s.selected_guids ≡ [])
  nothing_shown s none (t, h) e = (refl, h)
  nothing_shown s (some p) (i, m, h, t) e = cc

  pub first_step-IsSound :
      (s t : AddState)
      → IsSound s
      → s.preview_step ≡ false
      → s.preview_loading ≡ false
      → t.preview_request ≡ s.preview_request
      → t.preview ≡ s.preview
      → t.preview_loading ≡ false
      → t.preview_step ≡ false
      → t.selected_guids ≡ s.selected_guids
      → IsSound t
  first_step-IsSound s t h step loading r p l k g =
      let (no_preview, none_selected) = nothing_shown s s.preview h.shows step in
      record {
        pending = subst (Pending t) (sym (r ∙ not_loading s s.preview_request h.pending loading)) l;
        shows = subst (Shows t) (sym (p ∙ no_preview)) (k, g ∙ none_selected);
      }

  pub reset_modal-IsSound : (s : AddState) → IsSound (reset_modal s)
  unfolding reset_modal
  reset_modal-IsSound s = record { pending = refl; shows = (refl, refl) }

  begin_preview-IsSound :
      (s : AddState)
      → IsSound s
      → is_selective s.add_mode ≡ true
      → s.preview_step ≡ false
      → IsSound (begin_preview (trim s.new_url) (record s { add_error = none }))
  begin_preview-IsSound s h m t =
      let (no_preview, none_selected) = nothing_shown s s.preview h.shows t in
      record {
        pending = (get-last s.begun (trim s.new_url), m, refl, t);
        shows =
            subst (Shows (begin_preview (trim s.new_url) (record s { add_error = none })))
              (sym no_preview) (t, none_selected);
      }

  pub same-IsSound :
      (s : AddState) (e : Option Text) (a : Bool)
      → IsSound s
      → IsSound (record s { add_error = e; adding = a })
  same-IsSound s e a h = record {
    pending = pending_kept s.preview_request h.pending;
    shows = shows_kept s.preview h.shows;
  }
    where
      pending_kept :
          (o : Option ℕ) → Pending s o → Pending (record s { add_error = e; adding = a }) o
      pending_kept none p = p
      pending_kept (some id) p = p

      shows_kept :
          (o : Option FeedPreview) → Shows s o → Shows (record s { add_error = e; adding = a }) o
      shows_kept none p = p
      shows_kept (some q) p = p

  selective_first : (a b : Bool) → (a && not b) ≡ true → (a ≡ true) × (b ≡ false)
  selective_first true false e = (refl, refl)
  selective_first true true e = cc
  selective_first false b e = cc

  handle_add_or_preview-IsSound : (s : AddState) → IsSound s → IsSound (handle_add_or_preview s).0
  unfolding handle_add_or_preview
  handle_add_or_preview-IsSound s h =
      elim (Bool-cases (is_selective s.add_mode && not s.preview_step)) [
        | inl e ↦
            let (m, t) = selective_first (is_selective s.add_mode) s.preview_step e in
            rw e (begin_preview-IsSound s h m t)
        | inr e ↦ rw e (same-IsSound s none true h)
      ]

  pub submit_step-IsSound : (s : AddState) → IsSound s → IsSound (submit_step s).0
  unfolding submit_step
  submit_step-IsSound s h = elim (Bool-cases (is_disabled s)) [
    | inl e ↦ rw e h
    | inr e ↦ rw e (handle_add_or_preview-IsSound s h)
  ]

  some_inj : (u v : Text) (o : Option Text) → o ≡ some u → o ≡ some v → u ≡ v
  some_inj u v none p q = cc
  some_inj u v (some w) p q = cc

  current :
      (s : AddState) (id : ℕ) (o : Option ℕ)
      → is_request o id ≡ true
      → Pending s o
      → Pending s (some id)
  current s id none e p = cc
  current s id (some n) e p = subst (λ k. Pending s (some k)) (grind arith) p

  end_preview-IsSound :
      (s : AddState) (id : ℕ) (url : Text) (reply : PreviewReply)
      → IsSound s
      → get_elem? s.begun id ≡ some url
      → Pending s (some id)
      → serve id url ≡ reply
      → IsSound (end_preview reply s)
  end_preview-IsSound s id url (previewed p) h asked (u, m, l, t) served =
      let (no_preview, none_selected) = nothing_shown s s.preview h.shows t in
      record {
        pending = refl;
        shows = (
          (
            id,
            ap (serve id) (some_inj (trim s.new_url) url (get_elem? s.begun id) u asked) ∙ served,
          ),
          m,
          λ g e. absurd_selected s.selected_guids none_selected g e,
          refl,
        );
      }
    where
      absurd_selected :
          {A : Type 0} (set : List Text) → set ≡ [] → (g : Text) → has_guid set g ≡ true → A
      absurd_selected [] e g d = cc
      absurd_selected (x ∷ set) e g d = cc
  end_preview-IsSound s id url (unavailable message) h asked (u, m, l, t) served =
      let (no_preview, none_selected) = nothing_shown s s.preview h.shows t in
      record {
        pending = refl;
        shows =
            subst (Shows (end_preview (unavailable message) s)) (sym no_preview) (t, none_selected);
      }

  pub hear_preview-IsSound :
      (s : AddState) (id : ℕ) (url : Text)
      → IsSound s
      → get_elem? s.begun id ≡ some url
      → IsSound (hear_preview id (serve id url) s)
  unfolding hear_preview
  hear_preview-IsSound s id url h asked = elim (Bool-cases (is_request s.preview_request id)) [
    | inl e ↦ rw e (
        end_preview-IsSound s id url (serve id url) h asked
          (current s id s.preview_request e h.pending) refl)
    | inr e ↦ rw e h
  ]

  -- Guids of the preview are chosen or laid down.
  pub chosen-IsSound :
      (s : AddState) (p : FeedPreview) (selected : List Text)
      → IsSound s
      → s.preview ≡ some p
      → (AreIn s.selected_guids (guids_of p.episodes) → AreIn selected (guids_of p.episodes))
      → IsSound (record s { selected_guids = selected })
  chosen-IsSound s p selected h e keeps = record {
    pending = pending_kept s.preview_request h.pending;
    shows =
        subst (Shows (record s { selected_guids = selected })) (sym e)
          (shows_kept (subst (Shows s) e h.shows));
  }
    where
      pending_kept :
          (o : Option ℕ) → Pending s o → Pending (record s { selected_guids = selected }) o
      pending_kept none p = p
      pending_kept (some id) p = p

      shows_kept : Shows s (some p) → Shows (record s { selected_guids = selected }) (some p)
      shows_kept (i, m, k, t) = (i, m, keeps k, t)

  pub go_back-IsSound : (s : AddState) → IsSound s → s.preview_step ≡ true → IsSound (go_back s)
  unfolding go_back
  go_back-IsSound s h e = record {
    pending = pending_kept s.preview_request h.pending;
    shows = (refl, refl);
  }
    where
      pending_kept : (o : Option ℕ) → Pending s o → Pending (go_back s) o
      pending_kept none p = p
      pending_kept (some id) (u, m, l, t) = cc
