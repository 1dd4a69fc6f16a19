-- ===== src/Update/Fetching.antt =====
-- How often the update check asks the releases host, and what it may report.
use podlog.Base.{
  inl, inr, ℕ, ◌≡◌, refl, true, false, Option, none, some, List, [], ◌∷◌, Text, ◌≤◌, ◌+◌, All,
  arith, if◌then◌else◌, Bool-cases,
}
use podlog.Update.{Answer, Cache, Reply, cache_ttl_ms, fresh, enabled, get}

pub record Call : Type 0 where
  pub setting : Option Text
  pub current : Option Text
  pub now : ℕ
  pub at : ℕ
  pub answer : Answer

abbrev pub answered_by : Option Cache → Call → Reply
answered_by cache c = get c.setting c.current cache c.now c.at c.answer

-- The times at which a sequence of calls asks the host.
abbrev pub fetches : Option Cache → List Call → List ℕ
fetches cache [] = []
fetches cache (c ∷ cs) =
    let rest = fetches (answered_by cache c).cache cs in
    if (answered_by cache c).did_fetch then c.at ∷ rest else rest

-- Each time is at least the life of the cache after the one before it.
abbrev pub Spaced : Option ℕ → List ℕ → Type 0
Spaced last [] = Unit
Spaced none (t ∷ ts) = Spaced (some t) ts
Spaced (some s) (t ∷ ts) = (s + cache_ttl_ms ≤ t) × Spaced (some t) ts

abbrev pub filled_at : Option Cache → Option ℕ
filled_at none = none
filled_at (some cache) = some cache.at

stale_later :
    (cache : Cache) (now : ℕ) → fresh (some cache) now ≡ false → cache.at + cache_ttl_ms ≤ now
unfolding fresh
stale_later cache now h = ground arith

Spaced-stale :
    (cache : Option Cache) (now at : ℕ) (ts : List ℕ)
    → fresh cache now ≡ false
    → now ≤ at
    → Spaced (some at) ts
    → Spaced (filled_at cache) (at ∷ ts)
Spaced-stale none now at ts h le k = k
Spaced-stale (some cache) now at ts h le k =
    (let s : cache.at + cache_ttl_ms ≤ now = stale_later cache now h in omega arith, k)

-- A call leaves the cache alone and does not ask, or it asks and fills a stale cache.
data Kind (cache : Option Cache) (c : Call) : Type 0 where
  kept :
      (answered_by cache c).cache ≡ cache → (answered_by cache c).did_fetch ≡ false → Kind cache c
  filled :
      filled_at (answered_by cache c).cache ≡ some c.at
      → (answered_by cache c).did_fetch ≡ true
      → fresh cache c.now ≡ false
      → Kind cache c

kind : (cache : Option Cache) (c : Call) → Kind cache c
unfolding get
kind cache c = elim (Bool-cases (enabled c.setting)) [
  | inr off ↦ kept (rw off refl) (rw off refl)
  | inl on ↦ elim (Bool-cases (fresh cache c.now)) [
    | inl young ↦ kept (rw (on, young) refl) (rw (on, young) refl)
    | inr old ↦ filled (rw (on, old) refl) (rw (on, old) refl) old
  ]
]

-- Calls of the update check that are made one after the other, each of which fills the cache no
-- earlier than it tested it, ask the releases host at times that lie at least six hours apart,
-- and at least six hours after the cache they start from was filled, whatever the host answers.
pub fetches-Spaced :
    (cache : Option Cache) (calls : List Call)
    → All (λ c. c.now ≤ c.at) calls
    → Spaced (filled_at cache) (fetches cache calls)
fetches-Spaced cache [] h = tt
fetches-Spaced cache (c ∷ cs) (le, h) = elim (kind cache c) [
  | kept same quiet ↦ rw (quiet, same) (fetches-Spaced cache cs h)
  | filled time asked old ↦ rw asked (
      Spaced-stale cache c.now c.at (fetches (answered_by cache c).cache cs) old le
        (rw time at (fetches-Spaced (answered_by cache c).cache cs h)))
]
