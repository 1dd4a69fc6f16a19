-- ===== src/Export/Conversations/Pairs.antt =====
-- The exchanges of a conversation, as they are exported.
use podlog.Base.{
  ◌≡◌, refl, ap, Bool, not, Option, List, [], ◌∷◌, map, keep, Text, is_empty, Bool-cases, inl, inr,
}
use podlog.Ask.{Json}
use podlog.Ask.Chat.{assistant, Message, said}
use podlog.Export.Conversations.{PrintedSource, Pair, pair_messages}

module _ (J : Json) (printed : Option J.Value → List PrintedSource) where
  -- A question with the message that answers it.
  pub record Exchange : Type 0 where
    pub question : Text
    pub answer : Text
    pub sources : Option J.Value

  abbrev pub has_answer : Exchange → Bool
  has_answer x = not (is_empty x.answer)

  abbrev pub pair_of : Exchange → Pair J printed
  pair_of x = record { question = x.question; answer = x.answer; sources = printed x.sources }

  -- The messages of a conversation that was held exchange by exchange.
  abbrev pub messages_of : List Exchange → List (Message J)
  messages_of [] = []
  messages_of (x ∷ xs) =
      said J x.question
      ∷ record { role = assistant; content = x.answer; sources = x.sources }
      ∷ messages_of xs

  -- The export of a conversation that was held exchange by exchange has its exchanges in their order,
  -- but for those without an answer.
  pub pair_messages-exchanges :
      (xs : List Exchange)
      → pair_messages J printed (messages_of xs) ≡ map pair_of (keep has_answer xs)
  unfolding pair_messages
  pair_messages-exchanges [] = refl
  pair_messages-exchanges (x ∷ xs) = elim (Bool-cases (is_empty x.answer)) [
    | inl e ↦ rw e (pair_messages-exchanges xs)
    | inr e ↦ rw e (ap (◌∷◌ (pair_of x)) (pair_messages-exchanges xs))
  ]
