-- ===== src/Embedding/Guard.antt =====
-- How often the embedding service is asked while it is down.
use podlog.Base.{
  ℕ, ◌≡◌, refl, true, false, Option, none, some, List, [], ◌∷◌, Text, ◌≤◌, ◌+◌, ltb, arith,
  if◌then◌else◌, Bool-cases, inl, inr,
}
use podlog.Embedding.{
  Answer, failed, refused, malformed, answered, Lookup, get_query_embedding, asked, env_int,
  default_cooldown_ms,
}

pub record Call (Vector : Type 0) : Type 0 where
  pub now : ℕ
  pub later : ℕ
  pub answer : Answer Vector

-- A call that asked the service: its beginning, and its end where it failed.
pub record Asked : Type 0 where
  pub began : ℕ
  pub failed_at : Option ℕ

module _ {Vector : Type 0} (setting : Option Text) where
  abbrev pub looked_up : ℕ → Call Vector → Lookup Vector
  looked_up cooldown_until c = get_query_embedding setting cooldown_until c.now c.later c.answer

  abbrev pub failure_of : (later : ℕ) → Answer Vector → Option ℕ
  failure_of later (answered vector) = none
  failure_of later _ = some later

  -- The calls of a sequence that ask the service.
  abbrev pub asks : ℕ → List (Call Vector) → List Asked
  asks cooldown_until [] = []
  asks cooldown_until (c ∷ cs) =
      let rest = asks (looked_up cooldown_until c).cooldown_until cs in
      if (looked_up cooldown_until c).did_fetch
      then record { began = c.now; failed_at = failure_of c.later c.answer } ∷ rest
      else rest

abbrev pub After : ℕ → Option ℕ → List Asked → Type 0
After cooldown none _ = Unit
After cooldown (some t) [] = Unit
After cooldown (some t) (a ∷ rest) = t + cooldown ≤ a.began

-- After each failure, the next call that asks begins at least a cooldown later.
abbrev pub Guarded : ℕ → List Asked → Type 0
Guarded cooldown [] = Unit
Guarded cooldown (a ∷ rest) = After cooldown a.failed_at rest × Guarded cooldown rest

abbrev Later : ℕ → List Asked → Type 0
Later t [] = Unit
Later t (a ∷ rest) = t ≤ a.began

module _ {Vector : Type 0} (setting : Option Text) where
  -- A call that starts in the cooldown changes nothing, and any other asks.
  data Kind (t : ℕ) (c : Call Vector) : Type 0 where
    quiet :
        (looked_up setting t c).cooldown_until ≡ t
        → (looked_up setting t c).did_fetch ≡ false
        → Kind t c
    asking : t ≤ c.now → looked_up setting t c ≡ asked setting c.later c.answer → Kind t c

  kind : (t : ℕ) (c : Call Vector) → Kind t c
  unfolding get_query_embedding
  kind t c = elim (Bool-cases (ltb c.now t)) [
    | inl early ↦ quiet (rw early refl) (rw early refl)
    | inr on_time ↦ asking ground arith (rw on_time refl)
  ]

  asked_fetches :
      (later : ℕ) (answer : Answer Vector) → (asked setting later answer).did_fetch ≡ true
  asked_fetches later (answered vector) = refl
  asked_fetches later failed = refl
  asked_fetches later refused = refl
  asked_fetches later malformed = refl

  After-Later :
      (later : ℕ) (answer : Answer Vector) (rest : List Asked)
      → Later (asked setting later answer).cooldown_until rest
      → After (env_int setting default_cooldown_ms) (failure_of setting later answer) rest
  After-Later later (answered vector) rest h = tt
  After-Later later failed [] h = tt
  After-Later later failed (a ∷ rest) h = h
  After-Later later refused [] h = tt
  After-Later later refused (a ∷ rest) h = h
  After-Later later malformed [] h = tt
  After-Later later malformed (a ∷ rest) h = h

  asks-Later : (t : ℕ) (cs : List (Call Vector)) → Later t (asks setting t cs)
  asks-Later t [] = tt
  asks-Later t (c ∷ cs) = elim (kind t c) [
    | quiet same silent ↦ rw (silent, same) (asks-Later t cs)
    | asking le e ↦ rw (e, asked_fetches c.later c.answer) le
  ]

  -- From any state of the cooldown, a sequence of lookups made one after the other asks the
  -- pipeline again only after the cooldown has passed since its last failure, where a failure is a
  -- rejected or timed out request, a status that is not ok, or a body that is not JSON.
  pub asks-Guarded :
      (t : ℕ) (cs : List (Call Vector))
      → Guarded (env_int setting default_cooldown_ms) (asks setting t cs)
  asks-Guarded t [] = tt
  asks-Guarded t (c ∷ cs) = elim (kind t c) [
    | quiet same silent ↦ rw (silent, same) (asks-Guarded t cs)
    | asking le e ↦
        rw (e, asked_fetches c.later c.answer)
          (
            After-Later c.later c.answer
                (asks setting (asked setting c.later c.answer).cooldown_until cs)
                (asks-Later (asked setting c.later c.answer).cooldown_until cs),
            asks-Guarded (asked setting c.later c.answer).cooldown_until cs,
          )
  ]
