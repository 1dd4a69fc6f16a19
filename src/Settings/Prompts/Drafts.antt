-- ===== src/Settings/Prompts/Drafts.antt =====
-- What the bar's Save does with the drafts, whatever the answers are.
use podlog.Base.{
  ℕ, ◌+◌, ◌≡◌, refl, ap, ◌∙◌, Bool, true, false, not, ◌&&◌, ◌||◌, Option, none, some, List, [], ◌∷◌,
  any, All, Text, text_eq, trim, is_empty, if◌then◌else◌,
}
use podlog.Base.Assoc.{lookup, text_eq_comm}
use podlog.Settings.{drop_key, lookup-drop_key}
use podlog.Settings.Prompts.{
  PromptItem, ToastMsg, PromptsState, StoreReply, stored, denied, dropped, delete_keys, if_edited,
  edited_of, list_or, edited, load, SaveEnding, complete, stopped, broken, Requests, key_of,
  sent_one, send_each, end_all, save_all,
}

lookup-delete_keys :
    (k : Text) (ks : List Text) (m : List (Text × Text))
    → lookup k (delete_keys ks m) ≡ (if any (text_eq k) ks then none else lookup k m)
lookup-delete_keys k [] m = refl
lookup-delete_keys k (j ∷ ks) m =
    lookup-delete_keys k ks (drop_key j m)
    ∙ (ap (λ o. if any (text_eq k) ks then none else o)
          (lookup-drop_key j k m ∙ ap (λ b. if b then none else lookup k m) (text_eq_comm j k))
        ∙ either (text_eq k j) (any (text_eq k) ks) (lookup k m))
  where
    either :
        (a b : Bool) (o : Option Text)
        → (if b then none else if a then none else o) ≡ (if a || b then none else o)
    either true true o = refl
    either true false o = refl
    either false b o = refl

-- An edited prompt's text is its draft.
edited_of-drafts :
    (ps : List PromptItem) (drafts : List (Text × Text))
    → All (λ e. lookup e.0 drafts ≡ some e.1) (edited_of ps drafts)
edited_of-drafts [] drafts = tt
edited_of-drafts (p ∷ ps) drafts = by_draft (edited_of-drafts ps drafts) (lookup p.key drafts) refl
  where
    by_value :
        All (λ e. lookup e.0 drafts ≡ some e.1) (edited_of ps drafts)
        → (b : Bool) (v : Text) → lookup p.key drafts ≡ some v
        → All
            (λ e. lookup e.0 drafts ≡ some e.1)
            (if b then edited_of ps drafts else (p.key, v) ∷ edited_of ps drafts)
    by_value ih true v e = ih
    by_value ih false v e = (e, ih)

    by_draft :
        All (λ e. lookup e.0 drafts ≡ some e.1) (edited_of ps drafts)
        → (o : Option Text) → lookup p.key drafts ≡ o
        → All (λ e. lookup e.0 drafts ≡ some e.1) (if_edited p o (edited_of ps drafts))
    by_draft ih none e = ih
    by_draft ih (some v) e = by_value ih (text_eq v p.value) v e

-- The entries in front of the first whose request is not taken.
abbrev pub in_front : StoreReply → Text × Text → List (Text × Text) → List (Text × Text)
in_front stored entry rest = entry ∷ rest
in_front _ entry rest = []

abbrev pub front : (reply : ℕ → StoreReply) → (i : ℕ) → List (Text × Text) → List (Text × Text)
front reply i [] = []
front reply i (entry ∷ entries) = in_front (reply i) entry (front reply (i + 1) entries)

-- The entries whose text reaches the rows.
abbrev pub reach_one : StoreReply → Text × Text → List (Text × Text) → List (Text × Text)
reach_one stored entry rest = entry ∷ rest
reach_one (denied detail) entry rest = []
reach_one (dropped was_stored) entry rest = if was_stored then entry ∷ [] else []

abbrev pub reaching : (reply : ℕ → StoreReply) → (i : ℕ) → List (Text × Text) → List (Text × Text)
reaching reply i [] = []
reaching reply i (entry ∷ entries) = reach_one (reply i) entry (reaching reply (i + 1) entries)

abbrev pub if_stored : StoreReply → Bool → Bool
if_stored stored rest = rest
if_stored _ rest = false

abbrev pub all_stored : (reply : ℕ → StoreReply) → (i : ℕ) → List (Text × Text) → Bool
all_stored reply i [] = true
all_stored reply i (entry ∷ entries) = if_stored (reply i) (all_stored reply (i + 1) entries)

abbrev pub or_lost : StoreReply → Bool → Bool
or_lost stored rest = rest
or_lost (denied detail) rest = false
or_lost (dropped was_stored) rest = true

-- The first request that is not taken is lost.
abbrev pub is_lost : (reply : ℕ → StoreReply) → (i : ℕ) → List (Text × Text) → Bool
is_lost reply i [] = false
is_lost reply i (entry ∷ entries) = or_lost (reply i) (is_lost reply (i + 1) entries)

abbrev is_complete : SaveEnding → Bool
is_complete complete = true
is_complete _ = false

abbrev is_broken : SaveEnding → Bool
is_broken broken = true
is_broken _ = false

abbrev pub is_success : Option ToastMsg → Bool
is_success none = false
is_success (some t) = not t.is_error

abbrev pub has_blank : List (Text × Text) → Bool
has_blank entries = any (λ e. is_empty (trim e.1)) entries

module _ {Rows : Type 0} (put : (key value : Text) → Rows → Rows)
    (reset_row : (key : Text) → Rows → Rows) (listed : Rows → List PromptItem) where
  abbrev Meets : (reply : ℕ → StoreReply) → (i : ℕ) → List (Text × Text) → Requests Rows → Type 0
  Meets reply i entries r =
      (r.taken ≡ front reply i entries)
      × (is_complete r.ending ≡ all_stored reply i entries)
      × (is_broken r.ending ≡ is_lost reply i entries)

  send_each-Meets :
      (reply : ℕ → StoreReply) (i : ℕ) (entries : List (Text × Text)) (rows : Rows)
      → Meets reply i entries (send_each put reset_row listed reply i entries rows)
  send_each-Meets reply i [] rows = (refl, refl, refl)
  send_each-Meets reply i ((key, value) ∷ entries) rows =
      by_reply (reply i) (send_each-Meets reply (i + 1) entries)
    where
      by_reply :
          (r : StoreReply)
          → ((rows : Rows)
              → Meets reply
                  (i + 1)
                  entries
                  (send_each put reset_row listed reply (i + 1) entries rows))
          → let q =
              sent_one put reset_row listed r
                (key, value)
                rows
                (send_each put reset_row listed reply (i + 1) entries) in
            (q.taken ≡ in_front r (key, value) (front reply (i + 1) entries))
            × (is_complete q.ending ≡ if_stored r (all_stored reply (i + 1) entries))
            × (is_broken q.ending ≡ or_lost r (is_lost reply (i + 1) entries))
      by_reply stored ih =
          let (taken, all, lost) = ih (put key value rows) in
          (ap (λ l. (key, value) ∷ l) taken, all, lost)
      by_reply (denied detail) ih = (refl, refl, refl)
      by_reply (dropped was_stored) ih = (refl, refl, refl)

  end_all-drafts :
      (ok : Bool) (e : SaveEnding) (taken : List (Text × Text)) (rows : Rows) (s : PromptsState)
      (k : Text)
      → lookup k (end_all put reset_row listed ok e taken rows s).drafts ≡ (
          if ok && (not (is_broken e) && any (text_eq k) (key_of taken))
          then none
          else lookup k s.drafts)
  unfolding load
  end_all-drafts true complete taken rows s k = lookup-delete_keys k (key_of taken) s.drafts
  end_all-drafts false complete taken rows s k = refl
  end_all-drafts true (stopped detail) [] rows s k = refl
  end_all-drafts false (stopped detail) [] rows s k = refl
  end_all-drafts true (stopped detail) (x ∷ taken) rows s k =
      lookup-delete_keys k (key_of (x ∷ taken)) s.drafts
  end_all-drafts false (stopped detail) (x ∷ taken) rows s k = refl
  end_all-drafts true broken taken rows s k = refl
  end_all-drafts false broken taken rows s k = refl

  end_all-toast :
      (ok : Bool) (e : SaveEnding) (taken : List (Text × Text)) (rows : Rows) (s : PromptsState)
      → is_success (end_all put reset_row listed ok e taken rows s).toast ≡ is_complete e
  unfolding load
  end_all-toast ok complete taken rows s = refl
  end_all-toast ok (stopped detail) [] rows s = refl
  end_all-toast true (stopped detail) (x ∷ taken) rows s = refl
  end_all-toast false (stopped detail) (x ∷ taken) rows s = refl
  end_all-toast ok broken taken rows s = refl

  abbrev pub put_each : List (Text × Text) → Rows → Rows
  put_each [] rows = rows
  put_each ((key, value) ∷ entries) rows = put_each entries (put key value rows)

  send_each-rows :
      (reply : ℕ → StoreReply) (i : ℕ) (entries : List (Text × Text)) (rows : Rows)
      → (send_each put reset_row listed reply i entries rows).rows
        ≡ put_each (reaching reply i entries) rows
  send_each-rows reply i [] rows = refl
  send_each-rows reply i ((key, value) ∷ entries) rows =
      by_reply (reply i) (send_each-rows reply (i + 1) entries)
    where
      by_reply :
          (r : StoreReply)
          → ((rows : Rows)
              → (send_each put reset_row listed reply (i + 1) entries rows).rows
                ≡ put_each (reaching reply (i + 1) entries) rows)
          → (sent_one put reset_row listed r
              (key, value)
              rows
              (send_each put reset_row listed reply (i + 1) entries)).rows
            ≡ put_each (reach_one r (key, value) (reaching reply (i + 1) entries)) rows
      by_reply stored ih = ih (put key value rows)
      by_reply (denied detail) ih = refl
      by_reply (dropped true) ih = refl
      by_reply (dropped false) ih = refl

  -- The bar's Save, whatever the requests and the load behind them answer, where no draft is blank:
  -- the rows take, in their order, the drafts of the edited prompts in front of the first whose
  -- request is not taken, and that one's where its request is lost behind the rows; a draft is
  -- dropped exactly where its prompt is one of those in front, no request is lost and the load
  -- succeeds, and every other draft is kept; and a success is reported exactly where every request
  -- is taken.
  pub save_all-drafts :
      (ok : Bool) (reply : ℕ → StoreReply) (rows : Rows) (s : PromptsState) (k : Text)
      → has_blank (edited s) ≡ false
      → All (λ e. lookup e.0 s.drafts ≡ some e.1) (edited s)
        × ((save_all put reset_row listed ok reply rows s).1
            ≡ put_each (reaching reply 0 (edited s)) rows)
        × (lookup k (save_all put reset_row listed ok reply rows s).0.drafts ≡ (
            if ok
              && (not (is_lost reply 0 (edited s))
                  && any (text_eq k) (key_of (front reply 0 (edited s))))
            then none
            else lookup k s.drafts))
        × (is_success (save_all put reset_row listed ok reply rows s).0.toast
            ≡ all_stored reply 0 (edited s))
  unfolding save_all
  save_all-drafts ok reply rows s k e =
      let r = send_each put reset_row listed reply 0 (edited s) rows in
      let (taken, all, lost) = send_each-Meets reply 0 (edited s) rows in
      (
        edited_of-drafts (list_or s.prompts) s.drafts,
        rw e (send_each-rows reply 0 (edited s) rows),
        rw e (
            end_all-drafts ok r.ending r.taken r.rows (record s { saving_all = true }) k ∙ λ i.
            if ok && (not (lost i) && any (text_eq k) (key_of (taken i)))
            then none
            else lookup k s.drafts),
        rw e (end_all-toast ok r.ending r.taken r.rows (record s { saving_all = true }) ∙ all),
      )
