-- ===== src/Feeds/Sent.antt =====
-- What the dialog that adds a feed sends from its second step, in every sequence of steps in which
-- neither the address nor the mode is changed while a preview loads.
use mathlib.Core.Path.{subst}
use podlog.Base.{
  ℕ, ◌≡◌, refl, sym, ap, ◌∙◌, Bool, true, false, not, ◌&&◌, ◌||◌, Option, none, some, List, [], ◌∷◌,
  get_elem?, keep, Text, text_eq, text_eq→eq, text_eq_refl, trim, is_empty, if◌then◌else◌,
  Bool-cases, inl, inr,
}
use podlog.Feeds.{
  EpisodePreview, FeedPreview, guids_of, has_guid, every_has, toggle_one, toggle_each, is_in_view,
  visible, togglable_visible,
}
use podlog.Feeds.Selection.{has-toggle_one, has-toggle_each}
use podlog.Feeds.Adding.{
  AddMode, is_selective, PreviewReply, previewed, AddRequest, AddState, begin_preview, closed,
  open_modal, change_url, change_mode, reset_modal, add_request, handle_add_or_preview, submit_step,
  hear_preview, go_back, toggle_guid, toggle_shown, toggle_all, hear_added,
}
use podlog.Feeds.Previews.{
  AreIn, Shows, IsSound, first_step-IsSound, reset_modal-IsSound, same-IsSound, submit_step-IsSound,
  hear_preview-IsSound, chosen-IsSound, go_back-IsSound,
}

pub kept_in :
    (f : EpisodePreview → Bool) (es : List EpisodePreview) (g : Text)
    → has_guid (guids_of (keep f es)) g ≡ true
    → has_guid (guids_of es) g ≡ true
kept_in f [] g h = h
kept_in f (e ∷ es) g h = elim (Bool-cases (f e)) [
  | inl d ↦
      in_front (text_eq g e.guid) (has_guid (guids_of (keep f es)) g) (kept_in f es g)
        (ap (λ b. has_guid (guids_of (if b then e ∷ keep f es else keep f es)) g) (sym d) ∙ h)
  | inr d ↦ behind (text_eq g e.guid) (
      kept_in f es g
        (ap (λ b. has_guid (guids_of (if b then e ∷ keep f es else keep f es)) g) (sym d) ∙ h))
]
  where
    in_front :
        (a b : Bool)
        → (b ≡ true → has_guid (guids_of es) g ≡ true)
        → (a || b) ≡ true
        → (a || has_guid (guids_of es) g) ≡ true
    in_front true b k e = refl
    in_front false b k e = k e

    behind : (a : Bool) → has_guid (guids_of es) g ≡ true → (a || has_guid (guids_of es) g) ≡ true
    behind true k = refl
    behind false k = k

-- The guids in view are among those of the preview.
pub visible_in :
    (lower : Text → Text) (query : Text) (p : FeedPreview)
    → AreIn (togglable_visible lower false [] query p) (guids_of p.episodes)
unfolding visible togglable_visible
visible_in lower query p g h =
    view_in (is_empty (lower (trim query))) (is_in_view lower (lower (trim query))) h
  where
    view_in :
        (b : Bool) (f : EpisodePreview → Bool)
        → has_guid (guids_of (if b then p.episodes else keep f p.episodes)) g ≡ true
        → has_guid (guids_of p.episodes) g ≡ true
    view_in true f e = e
    view_in false f e = kept_in f p.episodes g e

pub toggle_one_in :
    (g : Text) (set guids : List Text)
    → has_guid guids g ≡ true
    → AreIn set guids
    → AreIn (toggle_one g set) guids
toggle_one_in g set guids known h k e = elim (Bool-cases (text_eq k g)) [
  | inl d ↦ ap (has_guid guids) (text_eq→eq k g d) ∙ known
  | inr d ↦ h k (sym (has-toggle_one g k set ∙ rw d refl) ∙ e)
]

pub toggle_each_in :
    (scope set guids : List Text)
    → AreIn scope guids
    → AreIn set guids
    → AreIn (toggle_each scope set) guids
toggle_each_in scope set guids known h k e = elim (Bool-cases (has_guid scope k)) [
  | inl d ↦ known k d
  | inr d ↦ h k (sym (has-toggle_each scope set k ∙ rw d refl) ∙ e)
]

pub every_in : (set guids : List Text) → AreIn set guids → every_has guids set ≡ true
every_in [] guids h = refl
every_in (g ∷ set) guids h =
    both (has_guid guids g) (every_has guids set) (h g (rw (text_eq_refl g) refl))
      (every_in set guids (λ k e. h k (rw e (or_true (text_eq k g)))))
  where
    both : (a b : Bool) → a ≡ true → b ≡ true → (a && b) ≡ true
    both true true p q = refl
    both true false p q = q
    both false b p q = p

    or_true : (a : Bool) → (a || true) ≡ true
    or_true true = refl
    or_true false = refl

module _ (serve : (id : ℕ) (url : Text) → PreviewReply) (lower : Text → Text) where
  -- A step of the dialog. The address and the mode are changed in the first step only, where they
  -- are shown, and not while a preview loads; the load that ends is one that was begun.
  pub data Step : AddState → AddState → Type 0 where
    open_it : (s : AddState) → Step s (open_modal s)
    close_it : (s : AddState) → Step s (reset_modal s)
    type_url :
        (s : AddState) (url : Text)
        → s.preview_step ≡ false
        → s.preview_loading ≡ false
        → Step s (change_url url s)
    pick_mode :
        (s : AddState) (mode : AddMode)
        → s.preview_step ≡ false
        → s.preview_loading ≡ false
        → Step s (change_mode mode s)
    send : (s : AddState) → Step s (submit_step s).0
    hear :
        (s : AddState) (id : ℕ) (url : Text)
        → get_elem? s.begun id ≡ some url
        → Step s (hear_preview id (serve id url) s)
    back : (s : AddState) → s.preview_step ≡ true → Step s (go_back s)
    pick_one :
        (s : AddState) (p : FeedPreview) (query g : Text)
        → s.preview ≡ some p
        → has_guid (togglable_visible lower false [] query p) g ≡ true
        → Step s (toggle_guid g s)
    pick_all :
        (s : AddState) (p : FeedPreview) (query : Text)
        → s.preview ≡ some p
        → Step s (toggle_all (togglable_visible lower false [] query p) s)
    hear_add : (s : AddState) (error : Option Text) → Step s (hear_added error s)

  pub data Reach : AddState → Type 0 where
    start : Reach closed
    next : {s t : AddState} → Reach s → Step s t → Reach t

  Step-IsSound : {s t : AddState} → Step s t → IsSound serve s → IsSound serve t
  unfolding open_modal change_url change_mode toggle_guid toggle_all
  Step-IsSound (open_it s) h = opened s h
    where
      opened : (s : AddState) → IsSound serve s → IsSound serve (open_modal s)
      opened s h = record { pending = h.pending; shows = h.shows }
  Step-IsSound (close_it s) h = reset_modal-IsSound serve s
  Step-IsSound (type_url s url t l) h =
      first_step-IsSound serve s (change_url url s) h t l refl refl l t refl
  Step-IsSound (pick_mode s mode t l) h =
      first_step-IsSound serve s (change_mode mode s) h t l refl refl l t refl
  Step-IsSound (send s) h = submit_step-IsSound serve s h
  Step-IsSound (hear s id url asked) h = hear_preview-IsSound serve s id url h asked
  Step-IsSound (back s e) h = go_back-IsSound serve s h e
  Step-IsSound (pick_one s p query g e seen) h =
      chosen-IsSound serve s p (toggle_one g s.selected_guids) h e
        (toggle_one_in g s.selected_guids (guids_of p.episodes) (visible_in lower query p g seen))
  Step-IsSound (pick_all s p query e) h =
      let scope = togglable_visible lower false [] query p in
      subst (λ o. IsSound serve (toggle_shown o scope s)) (sym e)
        (chosen-IsSound serve s p (toggle_each scope s.selected_guids) h e
          (toggle_each_in scope s.selected_guids (guids_of p.episodes) (visible_in lower query p)))
  Step-IsSound (hear_add s none) h = reset_modal-IsSound serve (record s { adding = false })
  Step-IsSound (hear_add s (some message)) h = same-IsSound serve s (some message) false h

  Reach-IsSound : {s : AddState} → Reach s → IsSound serve s
  Reach-IsSound start = record { pending = refl; shows = (refl, refl) }
  Reach-IsSound (next r step) = Step-IsSound step (Reach-IsSound r)

abbrev request_or : AddRequest → Option AddRequest → AddRequest
request_or d none = d
request_or d (some r) = r

sent_enabled :
    (step empty adding loading chosen : Bool) (s t u : AddState) (q r : AddRequest)
    → step ≡ true
    → (if◌then◌else◌ {A = AddState × Option AddRequest}
        (if step then empty || adding else adding || loading)
        (s, none)
        (if chosen && not step then (t, none) else (u, some q))).1
      ≡ some r
    → (q ≡ r) × (empty ≡ false)
sent_enabled false empty adding loading chosen s t u q r d e = cc
sent_enabled true true adding loading chosen s t u q r d e = cc
sent_enabled true false true loading chosen s t u q r d e = cc
sent_enabled true false false loading true s t u q r d e = (ap (request_or q) e, refl)
sent_enabled true false false loading false s t u q r d e = (ap (request_or q) e, refl)

sent_second :
    (s : AddState) (r : AddRequest)
    → s.preview_step ≡ true
    → (submit_step s).1 ≡ some r
    → (add_request s ≡ r) × (is_empty s.selected_guids ≡ false)
unfolding submit_step handle_add_or_preview
sent_second s r step e =
    sent_enabled s.preview_step (is_empty s.selected_guids) s.adding s.preview_loading
      (is_selective s.add_mode) s (begin_preview (trim s.new_url) (record s { add_error = none }))
      (record s { add_error = none; adding = true }) (add_request s) r step e

module _ (serve : (id : ℕ) (url : Text) → PreviewReply) (lower : Text → Text) where
  shown_in_second :
      (s : AddState) (o : Option FeedPreview)
      → Shows serve s o
      → s.preview_step ≡ true
      → (p : FeedPreview) × (o ≡ some p) × Shows serve s (some p)
  shown_in_second s none (t, h) e = cc
  shown_in_second s (some p) h e = (p, refl, h)

  -- In every run of the dialog that adds a feed, from a closed one, in which neither the address nor
  -- the mode is changed while a preview loads, whatever ends in which order: a request that is sent
  -- from the second step is for the address for which the shown preview was served, in the mode of
  -- selected episodes, with the selected guids, of which there is one at least and each is an
  -- episode's of that preview.
  pub submit_step-sent :
      (s : AddState) (r : AddRequest)
      → Reach serve lower s
      → s.preview_step ≡ true
      → (submit_step s).1 ≡ some r
      → (p : FeedPreview) × (id : ℕ) × (s.preview ≡ some p)
        × (serve id r.url ≡ previewed p)
        × (is_selective r.mode ≡ true)
        × (r.selected_guids ≡ some s.selected_guids)
        × (is_empty s.selected_guids ≡ false)
        × (every_has (guids_of p.episodes) s.selected_guids ≡ true)
  submit_step-sent s r run step e =
      let (same, some_selected) = sent_second s r step e in
      let sound = Reach-IsSound serve lower run in
      let (p, shown, ((id, served), mode, known, t)) =
        shown_in_second s s.preview sound.shows step in
      (
        p,
        id,
        shown,
        ap (λ (q : AddRequest). serve id q.url) (sym same) ∙ served,
        ap (λ (q : AddRequest). is_selective q.mode) (sym same) ∙ mode,
        ap (λ (q : AddRequest). q.selected_guids) (sym same) ∙ rw mode refl,
        some_selected,
        every_in s.selected_guids (guids_of p.episodes) known,
      )
