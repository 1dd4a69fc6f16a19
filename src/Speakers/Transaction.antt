-- ===== src/Speakers/Transaction.antt =====
-- A connection of the database's pool: the tables that others see, and those of an open
-- transaction. A statement that fails changes nothing; the handlers end the transaction behind it.
use podlog.Base.{Bool, true, false, Option, none, some}

module _ (Store : Type 0) where
  pub record Db : Type 0 where
    pub committed : Store
    pub working : Option Store

-- Code that may throw (`none`) and keeps what it did to the database.
abbrev pub Try : (Store A : Type 0) → Type 0
Try Store A = Db Store → Option A × Db Store

module _ {Store : Type 0} where
  abbrev pub pure : {A : Type 0} → A → Try Store A
  pure a db = (some a, db)

  abbrev after : {A B : Type 0} → (A → Try Store B) → Option A × Db Store → Option B × Db Store
  after f (none, db) = (none, db)
  after f (some a, db) = f a db

  infixl 5 ◌>>=◌ ◌>>◌
  abbrev pub ◌>>=◌ : {A B : Type 0} → Try Store A → (A → Try Store B) → Try Store B
  ◌>>=◌ m f db = after f (m db)

  abbrev pub ◌>>◌ : {A B : Type 0} → Try Store A → Try Store B → Try Store B
  m >> k = m >>= λ _. k

  abbrev caught : {A : Type 0} → Try Store A → Option A × Db Store → Option A × Db Store
  caught handler (none, db) = handler db
  caught handler (some a, db) = (some a, db)

  -- `try { m } catch { handler }`
  abbrev pub try_catch : {A : Type 0} → Try Store A → Try Store A → Try Store A
  try_catch m handler db = caught handler (m db)

  -- A statement, which fails where `answered` is false.
  abbrev pub ask : {A : Type 0} (answered : Bool) → (Db Store → A × Db Store) → Try Store A
  ask false f db = (none, db)
  ask true f db = let (a, after_it) = f db in (some a, after_it)

  abbrev pub query : {A : Type 0} (answered : Bool) → (Store → A × Store) → Try Store A
  query answered f = ask answered (λ db. elim db.working [
    | none ↦ (let (a, s) = f db.committed in (a, record { committed = s; working = none }))
    | some w ↦ (let (a, s) = f w in (a, record { committed = db.committed; working = some s }))
  ])

  abbrev pub begin : (answered : Bool) → Try Store Unit
  begin answered =
      ask answered (λ db. (tt, record { committed = db.committed; working = some db.committed }))

  abbrev pub commit : (answered : Bool) → Try Store Unit
  commit answered = ask answered (λ db. elim db.working [
    | none ↦ (tt, db)
    | some w ↦ (tt, record { committed = w; working = none })
  ])

  abbrev pub rollback : (answered : Bool) → Try Store Unit
  rollback answered = ask answered (λ db. (tt, record { committed = db.committed; working = none }))
