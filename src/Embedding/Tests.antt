-- ===== src/Embedding/Tests.antt =====
-- The lookups of a query's embedding on concrete calls.
use podlog.Base.{is_space, ◌≡◌, refl, some, List, [], ◌∷◌, Text, codes, map}
use podlog.Embedding.{failed, answered, env_int, default_cooldown_ms, get_query_embedding}
use podlog.Embedding.Guard.{Call, asks, Guarded, asks-Guarded}

abbrev calls : List (Call (List Text))
calls =
    record { now = 5; later = 2005; answer = failed }
    ∷ record { now = 2100; later = 4100; answer = failed }
    ∷ record { now = 3005; later = 3010; answer = answered [] }
    ∷ []

-- The second call falls into the cooldown that the first one began.
asks_twice : map (λ a. a.began) (asks (some (codes "1000")) 0 calls) ≡ 5 ∷ 3005 ∷ []
unfolding get_query_embedding env_int is_space
asks_twice = refl

asks-Guarded_example :
    Guarded (env_int (some (codes "1000")) default_cooldown_ms) (asks (some (codes "1000")) 0 calls)
asks-Guarded_example = asks-Guarded (some (codes "1000")) 0 calls
