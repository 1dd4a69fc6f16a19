-- ===== src/Embedding.antt =====
-- apps/web/src/lib/search/embedding.ts: the lookup of a query's embedding and its cooldown. The
-- pipeline and the clock are arguments: a call is given the time it starts at, what the pipeline
-- answers within the timeout if it is asked, and the time at which the answer was dealt with.
pub mod Guard
mod Tests
use podlog.Base.{
  ℕ, suc, Bool, true, false, Option, none, some, List, [], ◌∷◌, Text, ltb, if◌then◌else◌, ◌+◌,
}
use podlog.Base.Digits.{Whole, plus, minus, parse_int}

-- What `fetch` gives: it is rejected or times out, the status is not ok, the body is not JSON, or
-- it has an embedding.
pub data Answer (Vector : Type 0) : Type 0 where
  failed refused malformed : Answer Vector
  answered : Vector → Answer Vector

abbrev pub default_cooldown_ms : ℕ
default_cooldown_ms = 30000

abbrev text_of : Option Text → Text
text_of none = []
text_of (some s) = s

abbrev positive_or : ℕ → Option Whole → ℕ
positive_or fallback (some (plus (suc n))) = suc n
positive_or fallback _ = fallback

-- `envInt`, on the value of the environment variable.
unfoldable pub env_int : Option Text → (fallback : ℕ) → ℕ
unfolding parse_int
env_int setting fallback = positive_or fallback (parse_int (text_of setting))

abbrev pub reset_embedding_cooldown : ℕ → ℕ
reset_embedding_cooldown cooldown_until = 0

pub record Lookup (Vector : Type 0) : Type 0 where
  pub cooldown_until : ℕ
  pub did_fetch : Bool
  pub embedding : Option Vector

-- The `try` block and its `catch`.
abbrev pub asked : {Vector : Type 0} → Option Text → (later : ℕ) → Answer Vector → Lookup Vector
asked setting later (answered vector) = record {
  cooldown_until = 0;
  did_fetch = true;
  embedding = some vector;
}
asked setting later _ = record {
  cooldown_until = later + env_int setting default_cooldown_ms;
  did_fetch = true;
  embedding = none;
}

-- `getQueryEmbedding`: `setting` is EMBED_COOLDOWN_MS.
unfoldable pub get_query_embedding :
    {Vector : Type 0} → Option Text → (cooldown_until now later : ℕ) → Answer Vector → Lookup Vector
get_query_embedding setting cooldown_until now later answer =
    if ltb now cooldown_until
    then record { cooldown_until = cooldown_until; did_fetch = false; embedding = none }
    else asked setting later answer
