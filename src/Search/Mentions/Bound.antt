-- ===== src/Search/Mentions/Bound.antt =====
-- The statement of the mentions search is bound, with a speaker and without.
use podlog.Base.{Option, none, some, [], ◌∷◌, arith, Text}
use podlog.Search.Sql.{IsBound}
use podlog.Search.Mentions.{speaker_match, mentions_query}

-- The places of the statement are exactly the numbers of its parameters, with a speaker and
-- without.
mentions_query-IsBound :
    (base episode_id : Text) (speaker_like : Option Text)
    → IsBound (mentions_query base episode_id speaker_like)
unfolding mentions_query speaker_match
mentions_query-IsBound base episode_id none = record {
  within = omega arith;
  used = λ i a b. ground arith;
}
mentions_query-IsBound base episode_id (some []) = record {
  within = omega arith;
  used = λ i a b. ground arith;
}
mentions_query-IsBound base episode_id (some (c ∷ s)) = record {
  within = omega arith;
  used = λ i a b. ground arith;
}
