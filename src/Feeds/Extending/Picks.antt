-- ===== src/Feeds/Extending/Picks.antt =====
-- What the dialog that adds episodes sends.
use mathlib.Core.Path.{subst}
use podlog.Base.{
  ◌≡◌, refl, sym, ap, ◌∙◌, Bool, true, false, not, ◌&&◌, ◌||◌, Option, none, some, List, [], ◌∷◌,
  ◌++◌, keep, any, any-append, Text, codes, text_eq, text_eq_refl, is_empty, if◌then◌else◌,
  Bool-cases, inl, inr,
}
use podlog.Feeds.{FeedPreview, guids_of, has_guid, every_has, visible, togglable_visible}
use podlog.Feeds.Sent.{kept_in, visible_in, every_in}
use podlog.Feeds.Extending.{
  LoadReply, MoreState, mounted, hear_load, unmount, new_picks, submit_picks, toggle_new,
  toggle_all_new,
}
use podlog.Feeds.Extending.Kept.{
  has-keep, known_guid, IsSound, hear_load-IsSound, toggle_new-IsSound, toggle_all_new-IsSound,
}

module _ (lower : Text → Text) where
  -- A step of the dialog; what is chosen is in view.
  pub data Step : MoreState → MoreState → Type 0 where
    hear : (s : MoreState) (reply : LoadReply) → Step s (hear_load reply s)
    leave : (s : MoreState) → Step s (unmount s)
    pick_one :
        (s : MoreState) (p : FeedPreview) (query g : Text)
        → s.preview ≡ some p
        → has_guid (guids_of (visible lower query p)) g ≡ true
        → Step s (toggle_new g s)
    pick_all :
        (s : MoreState) (p : FeedPreview) (query : Text)
        → s.preview ≡ some p
        → Step s (toggle_all_new (togglable_visible lower true s.existing_guids query p) s)
    send : (s : MoreState) → Step s (submit_picks s).0

  pub data Reach : MoreState → Type 0 where
    start : Reach mounted
    next : {s t : MoreState} → Reach s → Step s t → Reach t

  any_error-IsSound :
      (s : MoreState) (e : Option Text) → IsSound s → IsSound (record s { error = e })
  any_error-IsSound s e h = record {
    locked = h.locked;
    known = λ g d. again s.preview g (h.known g d);
  }
    where
      again :
          (o : Option FeedPreview) (g : Text)
          → known_guid s o g ≡ true
          → known_guid (record s { error = e }) o g ≡ true
      again none g d = d
      again (some p) g d = d

  left-IsSound : (s : MoreState) → IsSound s → IsSound (unmount s)
  unfolding unmount
  left-IsSound s h = record { locked = h.locked; known = λ g d. again s.preview g (h.known g d) }
    where
      again :
          (o : Option FeedPreview) (g : Text)
          → known_guid s o g ≡ true
          → known_guid (unmount s) o g ≡ true
      again none g d = d
      again (some p) g d = d

  in_view_known :
      (query : Text) (p : FeedPreview) (locked : List Text) (g : Text)
      → has_guid (togglable_visible lower true locked query p) g ≡ true
      → has_guid (guids_of p.episodes) g ≡ true
  unfolding togglable_visible
  in_view_known query p locked g h =
      visible_in lower query p g
        (kept_in (λ e. not (has_guid locked e.guid)) (visible lower query p) g h)

  Step-IsSound : {s t : MoreState} → Step s t → IsSound s → IsSound t
  unfolding submit_picks togglable_visible
  Step-IsSound (hear s reply) h = hear_load-IsSound reply s h
  Step-IsSound (leave s) h = left-IsSound s h
  Step-IsSound (pick_one s p query g e seen) h =
      toggle_new-IsSound s p g h e (visible_in lower query p g seen)
  Step-IsSound (pick_all s p query e) h =
      toggle_all_new-IsSound s p (togglable_visible lower true s.existing_guids query p) h e
        (in_view_known query p s.existing_guids)
  Step-IsSound (send s) h = elim (Bool-cases (is_empty (new_picks s))) [
    | inl e ↦ rw e (any_error-IsSound s (some (codes "Select at least one new episode to add.")) h)
    | inr e ↦ rw e (any_error-IsSound s none h)
  ]

  Reach-IsSound : {s : MoreState} → Reach s → IsSound s
  Reach-IsSound start = record { locked = λ g e. e; known = λ g e. e }
  Reach-IsSound (next r step) = Step-IsSound step (Reach-IsSound r)

one_of : (set : List Text) → is_empty set ≡ false → (g : Text) × (has_guid set g ≡ true)
one_of [] e = cc
one_of (g ∷ set) e = (g, rw (text_eq_refl g) refl)

no_locked :
    (set locked : List Text)
    → any (has_guid locked) (keep (λ h. not (has_guid locked h)) set) ≡ false
no_locked [] locked = refl
no_locked (g ∷ set) locked = elim (Bool-cases (has_guid locked g)) [
  | inl e ↦ rw e (no_locked set locked)
  | inr e ↦ rw (e, e) (no_locked set locked)
]

abbrev guids_or : List Text → Option (List Text) → List Text
guids_or d none = d
guids_or d (some l) = l

picks_sent :
    (s : MoreState) (picks : List Text)
    → (submit_picks s).1 ≡ some picks
    → (new_picks s ≡ picks) × (is_empty (new_picks s) ≡ false)
unfolding submit_picks
picks_sent s picks e =
    by_test (is_empty (new_picks s))
      (record s { error = some (codes "Select at least one new episode to add.") })
      (record s { error = none }) (new_picks s) e
  where
    by_test :
        (b : Bool) (t u : MoreState) (l : List Text)
        → (if◌then◌else◌ {A = MoreState × Option (List Text)} b (t, none) (u, some l)).1
          ≡ some picks
        → (l ≡ picks) × (b ≡ false)
    by_test true t u l e = cc
    by_test false t u l e = (ap (guids_or l) e, refl)

module _ (lower : Text → Text) where
  previewed_pick :
      (s : MoreState) (o : Option FeedPreview) (g : Text)
      → known_guid s o g ≡ true
      → has_guid s.existing_guids g ≡ false
      → (p : FeedPreview) × (o ≡ some p)
  previewed_pick s none g e d = cc
  previewed_pick s (some p) g e d = (p, refl)

  new_known :
      (s : MoreState) (o : Option FeedPreview) (p : FeedPreview) (g : Text)
      → o ≡ some p
      → known_guid s o g ≡ true
      → has_guid s.existing_guids g ≡ false
      → has_guid (guids_of p.episodes) g ≡ true
  new_known s o p g e k d =
      right (has_guid s.existing_guids g) (has_guid (guids_of p.episodes) g) d
        (subst (λ q. known_guid s q g ≡ true) e k)
    where
      right : (a b : Bool) → a ≡ false → (a || b) ≡ true → b ≡ true
      right true b x y = cc
      right false b x y = y

  picked :
      (s : MoreState) (g : Text)
      → has_guid (new_picks s) g ≡ true
      → (has_guid s.existing_guids g ≡ false) × (has_guid s.selected_guids g ≡ true)
  picked s g e =
      apart (has_guid s.existing_guids g) (has_guid s.selected_guids g)
        (sym (has-keep s.selected_guids s.existing_guids g) ∙ e)
    where
      apart : (a b : Bool) → (not a && b) ≡ true → (a ≡ false) × (b ≡ true)
      apart true b x = cc
      apart false b x = (refl, x)

  sent_or_locked :
      (s : MoreState) (g : Text)
      → has_guid s.selected_guids g ≡ true
      → has_guid (s.existing_guids ++ new_picks s) g ≡ true
  sent_or_locked s g e =
      any-append (text_eq g) s.existing_guids (new_picks s)
      ∙ (ap (λ b. has_guid s.existing_guids g || b) (has-keep s.selected_guids s.existing_guids g)
          ∙ either (has_guid s.existing_guids g) (has_guid s.selected_guids g) e)
    where
      either : (a b : Bool) → b ≡ true → (a || (not a && b)) ≡ true
      either true b x = refl
      either false b x = x

  -- In every run of the dialog that adds episodes to a feed, whatever is chosen under whatever
  -- filter: the guids that are sent are some, none of them is of an episode that the feed has, each
  -- is of an episode of the preview, and they are all the selected ones but those that the feed has,
  -- which are still selected.
  pub submit_picks-sent :
      (s : MoreState) (picks : List Text)
      → Reach lower s
      → (submit_picks s).1 ≡ some picks
      → (p : FeedPreview) × (s.preview ≡ some p)
        × (is_empty picks ≡ false)
        × (any (has_guid s.existing_guids) picks ≡ false)
        × (every_has (guids_of p.episodes) picks ≡ true)
        × (every_has (s.existing_guids ++ picks) s.selected_guids ≡ true)
        × (every_has s.selected_guids (s.existing_guids ++ picks) ≡ true)
  submit_picks-sent s picks run e =
      let (same, some_new) = picks_sent s picks e in
      let sound = Reach-IsSound lower run in
      let (g, chosen) = one_of (new_picks s) some_new in
      let (new, selected) = picked s g chosen in
      let (p, shown) = previewed_pick s s.preview g (sound.known g selected) new in
      (
        p,
        shown,
        ap is_empty (sym same) ∙ some_new,
        ap (any (has_guid s.existing_guids)) (sym same)
            ∙ no_locked s.selected_guids s.existing_guids,
        ap (every_has (guids_of p.episodes)) (sym same)
            ∙ every_in (new_picks s) (guids_of p.episodes) (λ k d.
              new_known s s.preview p k shown (sound.known k (picked s k d).1) (picked s k d).0),
        ap (λ l. every_has (s.existing_guids ++ l) s.selected_guids) (sym same)
            ∙ every_in s.selected_guids (s.existing_guids ++ new_picks s) (sent_or_locked s),
        ap (λ l. every_has s.selected_guids (s.existing_guids ++ l)) (sym same)
            ∙ every_in (s.existing_guids ++ new_picks s) s.selected_guids (λ k d.
              selected_of k (has_guid s.existing_guids k) (sound.locked k) (λ x. (picked s k x).1)
                (sym (any-append (text_eq k) s.existing_guids (new_picks s)) ∙ d)),
      )
    where
      selected_of :
          (k : Text) (a : Bool)
          → (a ≡ true → has_guid s.selected_guids k ≡ true)
          → (has_guid (new_picks s) k ≡ true → has_guid s.selected_guids k ≡ true)
          → (a || has_guid (new_picks s) k) ≡ true
          → has_guid s.selected_guids k ≡ true
      selected_of k true x y z = x refl
      selected_of k false x y z = y z
