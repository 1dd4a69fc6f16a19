-- ===== src/Feeds/Extending/Kept.antt =====
-- The dialog that adds episodes: each handler keeps what is known of the selection.
use mathlib.Core.Path.{subst}
use podlog.Base.{
  ◌≡◌, refl, sym, ap, ◌∙◌, Bool, true, false, not, ◌&&◌, ◌||◌, Option, none, some, List, [], ◌∷◌,
  keep, Text, text_eq, text_eq→eq, if◌then◌else◌, Bool-cases, inl, inr,
}
use podlog.Feeds.{FeedPreview, guids_of, has_guid, every_has, toggle_one, toggle_each}
use podlog.Feeds.Selection.{has-toggle_one, has-toggle_each}
use podlog.Feeds.Extending.{
  LoadReply, both_loaded, not_loaded, MoreState, end_load, hear_load, toggle_new, toggle_in,
  toggle_all_new,
}

-- A guid that is kept passes the test.
pub has-keep :
    (set locked : List Text) (g : Text)
    → has_guid (keep (λ h. not (has_guid locked h)) set) g
      ≡ (not (has_guid locked g) && has_guid set g)
has-keep [] locked g = elim (Bool-cases (has_guid locked g)) [
  | inl e ↦ rw e refl
  | inr e ↦ rw e refl
]
has-keep (h ∷ set) locked g = elim (Bool-cases (has_guid locked h)) [
  | inl e ↦ rw e (
      has-keep set locked g
      ∙ dropped (text_eq g h) (has_guid locked g) (has_guid set g)
          (λ d. ap (has_guid locked) (text_eq→eq g h d) ∙ e))
  | inr e ↦ rw e (
      ap (λ b. text_eq g h || b) (has-keep set locked g)
      ∙ stays (text_eq g h) (has_guid locked g) (has_guid set g)
          (λ d. ap (has_guid locked) (text_eq→eq g h d) ∙ e))
]
  where
    dropped : (a b c : Bool) → (a ≡ true → b ≡ true) → (not b && c) ≡ (not b && (a || c))
    dropped true b c e = rw (e refl) refl
    dropped false b c e = refl

    stays : (a b c : Bool) → (a ≡ true → b ≡ false) → (a || (not b && c)) ≡ (not b && (a || c))
    stays true b c e = rw (e refl) refl
    stays false b c e = refl

abbrev pub known_guid : MoreState → Option FeedPreview → Text → Bool
known_guid s none g = has_guid s.existing_guids g
known_guid s (some p) g = has_guid s.existing_guids g || has_guid (guids_of p.episodes) g

-- The feed's episodes are all selected, and what is selected is one of them or of the preview.
pub record IsSound (s : MoreState) : Type 0 where
  pub locked : (g : Text) → has_guid s.existing_guids g ≡ true → has_guid s.selected_guids g ≡ true
  pub known : (g : Text) → has_guid s.selected_guids g ≡ true → known_guid s s.preview g ≡ true

end_load-IsSound : (reply : LoadReply) (s : MoreState) → IsSound s → IsSound (end_load reply s)
end_load-IsSound (both_loaded p existing) s h = record {
  locked = λ g e. e;
  known = λ g e. rw e refl;
}
end_load-IsSound (not_loaded message) s h = record {
  locked = h.locked;
  known = λ g e. same s.preview g (h.known g e);
}
  where
    same :
        (o : Option FeedPreview) (g : Text)
        → known_guid s o g ≡ true
        → known_guid (end_load (not_loaded message) s) o g ≡ true
    same none g e = e
    same (some p) g e = e

pub hear_load-IsSound :
    (reply : LoadReply) (s : MoreState) → IsSound s → IsSound (hear_load reply s)
unfolding hear_load
hear_load-IsSound reply s h = elim (Bool-cases s.cancelled) [
  | inl e ↦ subst (λ b. IsSound (if b then s else end_load reply s)) (sym e) h
  | inr e ↦
      subst (λ b. IsSound (if b then s else end_load reply s)) (sym e) (end_load-IsSound reply s h)
]

-- A change that leaves the locked guids, and takes only those of the preview.
changed-IsSound :
    (s : MoreState) (selected : List Text)
    → IsSound s
    → ((g : Text)
        → has_guid s.existing_guids g ≡ true
        → has_guid selected g ≡ has_guid s.selected_guids g)
    → ((g : Text) → has_guid selected g ≡ true → known_guid s s.preview g ≡ true)
    → IsSound (record s { selected_guids = selected })
changed-IsSound s selected h same known = record {
  locked = λ g e. same g e ∙ h.locked g e;
  known = λ g e. again s.preview g (known g e);
}
  where
    again :
        (o : Option FeedPreview) (g : Text)
        → known_guid s o g ≡ true
        → known_guid (record s { selected_guids = selected }) o g ≡ true
    again none g e = e
    again (some p) g e = e

from_preview :
    (s : MoreState) (o : Option FeedPreview) (p : FeedPreview) (g : Text)
    → o ≡ some p
    → has_guid (guids_of p.episodes) g ≡ true
    → known_guid s o g ≡ true
from_preview s o p g e h =
    rw e (either (has_guid s.existing_guids g) (has_guid (guids_of p.episodes) g) h)
  where
    either : (a b : Bool) → b ≡ true → (a || b) ≡ true
    either true b e = refl
    either false b e = e

pub toggle_new-IsSound :
    (s : MoreState) (p : FeedPreview) (g : Text)
    → IsSound s
    → s.preview ≡ some p
    → has_guid (guids_of p.episodes) g ≡ true
    → IsSound (toggle_new g s)
unfolding toggle_new
toggle_new-IsSound s p g h e seen = elim (Bool-cases (has_guid s.existing_guids g)) [
  | inl d ↦
      subst
        (λ b.
          IsSound (if b then s else record s { selected_guids = toggle_one g s.selected_guids }))
        (sym d) h
  | inr d ↦
      subst
        (λ b.
          IsSound (if b then s else record s { selected_guids = toggle_one g s.selected_guids }))
        (sym d)
        (changed-IsSound s (toggle_one g s.selected_guids) h
          (λ k f.
            has-toggle_one g k s.selected_guids
            ∙ apart (text_eq k g) _ _ (λ c.
              clash (has_guid s.existing_guids k) f
                (ap (has_guid s.existing_guids) (text_eq→eq k g c) ∙ d)))
          (λ k f. chosen k (text_eq k g) refl (sym (has-toggle_one g k s.selected_guids) ∙ f)))
]
  where
    clash : (a : Bool) → a ≡ true → a ≡ false → true ≡ false
    clash a x y = cc

    apart : (b x y : Bool) → (b ≡ true → true ≡ false) → (if b then x else y) ≡ y
    apart true x y k = let bad = k refl in cc
    apart false x y k = refl

    chosen :
        (k : Text) (b : Bool)
        → text_eq k g ≡ b
        → (if b then not (has_guid s.selected_guids g) else has_guid s.selected_guids k) ≡ true
        → known_guid s s.preview k ≡ true
    chosen k true c f =
        from_preview s s.preview p k e
          (ap (has_guid (guids_of p.episodes)) (text_eq→eq k g c) ∙ seen)
    chosen k false c f = h.known k f

toggle_in-IsSound :
    (s : MoreState) (p : FeedPreview) (scope : List Text)
    → IsSound s
    → s.preview ≡ some p
    → ((g : Text) → has_guid scope g ≡ true → has_guid (guids_of p.episodes) g ≡ true)
    → IsSound (toggle_in (some p) scope s)
toggle_in-IsSound s p scope h e seen =
    let new = keep (λ g. not (has_guid s.existing_guids g)) scope in
    changed-IsSound s (toggle_each new s.selected_guids) h
      (λ k f.
        has-toggle_each new s.selected_guids k
        ∙ apart (has_guid new k) _ _ (has-keep scope s.existing_guids k ∙ rw f refl))
      (λ k f. chosen k (has_guid new k) refl (sym (has-toggle_each new s.selected_guids k) ∙ f))
  where
    apart : (b x y : Bool) → b ≡ false → (if b then x else y) ≡ y
    apart true x y k = cc
    apart false x y k = refl

    second : (a b : Bool) → (not a && b) ≡ true → b ≡ true
    second true b c = cc
    second false b c = c

    chosen :
        (k : Text) (b : Bool)
        → has_guid (keep (λ g. not (has_guid s.existing_guids g)) scope) k ≡ b
        → (if b
            then not
                (every_has s.selected_guids (keep (λ g. not (has_guid s.existing_guids g)) scope))
            else has_guid s.selected_guids k)
          ≡ true
        → known_guid s s.preview k ≡ true
    chosen k true c f = from_preview s s.preview p k e (
        seen k (
          second (has_guid s.existing_guids k) (has_guid scope k)
            (sym (has-keep scope s.existing_guids k) ∙ c)))
    chosen k false c f = h.known k f

pub toggle_all_new-IsSound :
    (s : MoreState) (p : FeedPreview) (scope : List Text)
    → IsSound s
    → s.preview ≡ some p
    → ((g : Text) → has_guid scope g ≡ true → has_guid (guids_of p.episodes) g ≡ true)
    → IsSound (toggle_all_new scope s)
unfolding toggle_all_new
toggle_all_new-IsSound s p scope h e seen =
    subst (λ o. IsSound (toggle_in o scope s)) (sym e) (toggle_in-IsSound s p scope h e seen)
