-- ===== src/Ask/Chat/History.antt =====
-- What a submission sends of the conversation in front of it.
use podlog.Base.{
  ℕ, ◌≤◌, ◌<◌, ◌++◌, ◌⊎◌, sym, ap, ◌∙◌, if◌then◌else◌, take, ltb, ◌-◌, zero, suc, ◌≡◌, refl, true,
  false, Option, none, some, List, [], ◌∷◌, map, keep, drop, length, Text, codes, trim, is_empty,
  arith, length-map, length-drop, Bool-cases, inl, inr,
}
use mathlib.Core.Path.{subst}
use podlog.Ask.{Json, Response}
use podlog.Ask.Chat.{
  Role, Message, ChatState, ChatRequest, has_content, prior_history, submit, chat_submit,
  docs_submit,
}

map-drop : {A B : Type 0} (f : A → B) (n : ℕ) (xs : List A) → map f (drop n xs) ≡ drop n (map f xs)
map-drop f zero xs = refl
map-drop f (suc n) [] = refl
map-drop f (suc n) (x ∷ xs) = map-drop f n xs

take-drop : {A : Type 0} (n : ℕ) (xs : List A) → take n xs ++ drop n xs ≡ xs
take-drop zero xs = refl
take-drop (suc n) [] = refl
take-drop (suc n) (x ∷ xs) = ap (◌∷◌ x) (take-drop n xs)

module _ (J : Json) where
  -- What a conversation says, message by message, the empty ones left out.
  abbrev pub entries : List (Message J) → List (Role × Text)
  entries [] = []
  entries (m ∷ ms) =
      let rest = entries ms in if is_empty m.content then rest else (m.role, m.content) ∷ rest

  entries-keep :
      (ms : List (Message J))
      → map (λ m. (m.role, m.content)) (keep (has_content J) ms) ≡ entries ms
  entries-keep [] = refl
  entries-keep (m ∷ ms) = elim (Bool-cases (is_empty m.content)) [
    | inl e ↦ rw e (entries-keep ms)
    | inr e ↦ rw e (ap (◌∷◌ (m.role, m.content)) (entries-keep ms))
  ]

  prior_history-drop :
      (ms : List (Message J)) → prior_history J ms ≡ drop (length (entries ms) - 8) (entries ms)
  unfolding prior_history
  prior_history-drop ms =
      let f : Message J → Role × Text = λ m. (m.role, m.content) in
      let kept = keep (has_content J) ms in
      map-drop {B = Role × Text} f (length kept - 8) kept
      ∙ ap (λ n. drop (n - 8) (map f kept)) (sym (length-map {B = Role × Text} kept f))
      ∙ ap (λ xs. drop (length xs - 8) xs) (entries-keep ms)

  -- The last eight of some entries, or all where they are not so many.
  abbrev pub AreLast : (history all : List (Role × Text)) → Type 0
  AreLast history all =
      (front : List (Role × Text)) × (all ≡ front ++ history)
      × (length history ≤ 8)
      × ((front ≡ []) ⊎ (length history ≡ 8))

  drop-AreLast : (xs : List (Role × Text)) → AreLast (drop (length xs - 8) xs) xs
  drop-AreLast xs = (
    take (length xs - 8) xs,
    sym (take-drop (length xs - 8) xs),
    omega (arith, length-drop (length xs - 8) xs),
    elim (Bool-cases (ltb 8 (length xs))) [
      | inl e ↦
          inr (
            let l : 8 < length xs = ground arith in
            omega (arith, l, length-drop (length xs - 8) xs))
      | inr e ↦ inl (let z : length xs - 8 ≡ 0 = ground arith in ap (λ n. take n xs) z)
    ],
  )

  -- The request asks the question, with the last eight of what was said in front of it.
  abbrev pub IsRequest : (q : Text) → (old : List (Message J)) → Option (ChatRequest J) → Type 0
  IsRequest q old none = is_empty q ≡ true
  IsRequest q old (some r) =
      (r.question ≡ q) × (is_empty q ≡ false) × AreLast r.history (entries old)

  submit-IsRequest :
      (unreachable input : Text) (response : Response) (old : ChatState J)
      → IsRequest (trim input) old.messages (submit J unreachable input response old).0
  submit-IsRequest unreachable input response old = elim (Bool-cases (is_empty (trim input))) [
    | inl e ↦ rw e e
    | inr e ↦
        let last =
          subst (λ h. AreLast h (entries old.messages)) (sym (prior_history-drop old.messages))
            (drop-AreLast (entries old.messages)) in
        rw e (refl, e, last)
  ]

  -- Either component sends a request exactly where the trimmed question is not empty. It asks this
  -- question, and goes with the last eight of the messages in front that are not empty, or with
  -- all of them where there are fewer, in their order.
  pub chat_submit-IsRequest :
      (input : Text) (response : Response) (old : ChatState J)
      → IsRequest (trim input) old.messages (chat_submit J input response old).0
        × IsRequest (trim input) old.messages (docs_submit J input response old).0
  unfolding chat_submit docs_submit
  chat_submit-IsRequest input response old = (
    submit-IsRequest (codes "Failed to connect to the pipeline API.") input response old,
    submit-IsRequest (codes "Failed to reach the documentation service.") input response old,
  )
