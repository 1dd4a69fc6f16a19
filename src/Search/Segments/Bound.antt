-- ===== src/Search/Segments/Bound.antt =====
-- Every statement of the flat search is bound: its places are `$1` to the number of parameters.
use podlog.Base.{
  ℕ, ◌+◌, ◌-◌, ◌*◌, ◌≤◌, ◌<◌, ◌≡◌, refl, Bool, Option, List, [], ◌∷◌, ◌++◌, arith, Text, length,
  length-append, append_assoc,
}
use mathlib.Core.Path.{subst}
use podlog.Search.Sql.{
  text, Param, places, places-append, Covers, Covers-one, Covers-append, Covers-again, IsBound,
}
use podlog.Search.Filters.{
  FilterOptions, build_feed_filter, build_metadata_filters, build_speaker_turn_filters,
  build_segment_filters, append_filter_sql,
}
use podlog.Search.Filters.Numbering.{
  places_all, places-join, build_joined_filters-IsNumbered, build_metadata_filters-IsNumbered,
  build_feed_filter-Covers, places-append_filter_sql,
}
use podlog.Search.Segments.{
  metadata_where, metadata_params, metadata_next_idx, metadata_rows_query, metadata_count_query,
  turn_where, turn_params, turn_next_idx, fts_query, count_query, vec_query, status_done,
  fetch_limit,
}

pub Covers-to : {hi hi' : ℕ} {ns : List ℕ} → hi ≡ hi' → Covers 1 hi ns → Covers 1 hi' ns
Covers-to {ns = ns} e h = subst (λ n. Covers 1 n ns) e h

-- One place, or two, behind a text whose places are all taken.
Covers-more :
    {next : ℕ} (ns : List ℕ) → Covers 1 next ns → 1 ≤ next → Covers 1 (next + 1) (ns ++ next ∷ [])
Covers-more {next} ns h p = Covers-append ns (next ∷ []) p (omega arith) h (Covers-one next)

pub Covers-pair-more :
    {next : ℕ} (ns : List ℕ)
    → Covers 1 next ns
    → 1 ≤ next
    → Covers 1 (next + 2) (ns ++ next ∷ (next + 1) ∷ [])
Covers-pair-more {next} ns h p =
    Covers-append ns (next ∷ (next + 1) ∷ []) p (omega arith) h (record {
      within = ((omega arith, omega arith), ((omega arith, omega arith), tt));
      used = λ i a b. ground arith;
    })

-- `$1` once more, and then a new place.
Covers-first-more :
    {next : ℕ} (ms ns : List ℕ)
    → Covers 1 next (1 ∷ (ms ++ ns))
    → 1 < next
    → Covers 1 (next + 1) (1 ∷ (ms ++ (ns ++ 1 ∷ next ∷ [])))
Covers-first-more {next} ms ns h p =
    simp append_assoc at
      (Covers-more _ (Covers-again (1 ∷ (ms ++ ns)) h (omega arith) p) (omega arith))

module _ (opts : FilterOptions) (feed_ids : Option (List Text)) (manual : Bool) where
  pub metadata_next_idx-eq :
      metadata_next_idx opts feed_ids manual ≡ 1 + length (metadata_params opts feed_ids manual)
  unfolding metadata_next_idx metadata_params
  metadata_next_idx-eq =
      let feed = build_feed_filter feed_ids manual 1 in
      let meta = build_metadata_filters opts feed.next_idx in
      omega (
        arith,
        length-append feed.params meta.params,
        (build_feed_filter-Covers feed_ids manual 1).0,
        (build_metadata_filters-IsNumbered opts feed.next_idx).counted,
      )

  pub Covers-metadata_where :
      Covers 1
        (metadata_next_idx opts feed_ids manual)
        (places (metadata_where opts feed_ids manual))
  unfolding metadata_next_idx metadata_where
  Covers-metadata_where =
      let feed = build_feed_filter feed_ids manual 1 in
      let meta = build_metadata_filters opts feed.next_idx in
      let (counted, covered) = build_feed_filter-Covers feed_ids manual 1 in
      let numbered = build_metadata_filters-IsNumbered opts feed.next_idx in
      rw (places-join (text " AND " ∷ []) (status_done ∷ feed.clause ∷ meta.clauses) refl) (
        Covers-append (places feed.clause) (places_all meta.clauses) (omega arith)
          (omega (arith, numbered.counted)) covered numbered.covered)

  pub metadata_rows_query-IsBound :
      (page page_size : ℕ) → IsBound (metadata_rows_query opts feed_ids manual page page_size)
  unfolding metadata_rows_query
  metadata_rows_query-IsBound page page_size =
      let next = metadata_next_idx opts feed_ids manual in
      let ps = metadata_params opts feed_ids manual in
      rw (places-append (metadata_where opts feed_ids manual)) (
        Covers-to
          (omega (
            arith,
            metadata_next_idx-eq,
            length-append ps (Param.num page_size ∷ Param.num ((page - 1) * page_size) ∷ []),
          ))
          (Covers-pair-more _ Covers-metadata_where (omega (arith, metadata_next_idx-eq))))

  pub metadata_count_query-IsBound : IsBound (metadata_count_query opts feed_ids manual)
  unfolding metadata_count_query
  metadata_count_query-IsBound = rw (← metadata_next_idx-eq) Covers-metadata_where

  pub turn_next_idx-eq :
      (base : Text)
      → turn_next_idx opts feed_ids manual ≡ 1 + length (turn_params opts feed_ids manual base)
  unfolding turn_next_idx turn_params build_speaker_turn_filters
  turn_next_idx-eq base =
      let feed = build_feed_filter feed_ids manual 2 in
      let filters = build_speaker_turn_filters opts feed.next_idx in
      omega (
        arith,
        length-append feed.params filters.params,
        (build_feed_filter-Covers feed_ids manual 2).0,
        (build_joined_filters-IsNumbered opts feed.next_idx "t").counted,
      )

  pub Covers-turn_where :
      Covers 1 (turn_next_idx opts feed_ids manual) (places (turn_where opts feed_ids manual))
  unfolding turn_next_idx turn_where build_speaker_turn_filters
  Covers-turn_where =
      let feed = build_feed_filter feed_ids manual 2 in
      let filters = build_speaker_turn_filters opts feed.next_idx in
      let (counted, covered) = build_feed_filter-Covers feed_ids manual 2 in
      let numbered = build_joined_filters-IsNumbered opts feed.next_idx "t" in
      rw (places-append feed.clause, places-append_filter_sql filters.clauses)
        (Covers-append (1 ∷ []) (places feed.clause ++ places_all filters.clauses) (omega arith)
          (omega (arith, numbered.counted)) (Covers-one 1)
          (Covers-append (places feed.clause) (places_all filters.clauses) (omega arith)
            (omega (arith, numbered.counted)) covered numbered.covered))

  pub fts_query-IsBound : (base : Text) → IsBound (fts_query opts feed_ids manual base)
  unfolding fts_query
  fts_query-IsBound base = rw (places-append (turn_where opts feed_ids manual)) (
      Covers-to
        (omega (
          arith,
          turn_next_idx-eq base,
          length-append (turn_params opts feed_ids manual base) (Param.num fetch_limit ∷ []),
        ))
        (Covers-more _ Covers-turn_where (omega (arith, turn_next_idx-eq base))))

  pub count_query-IsBound : (base : Text) → IsBound (count_query opts feed_ids manual base)
  unfolding count_query
  count_query-IsBound base = rw (← turn_next_idx-eq base) Covers-turn_where

  pub vec_query-IsBound :
      (embedding : List Text) → IsBound (vec_query opts feed_ids manual embedding)
  unfolding vec_query build_segment_filters
  vec_query-IsBound embedding =
      let feed = build_feed_filter feed_ids manual 2 in
      let filters = build_segment_filters opts feed.next_idx in
      let (counted, covered) = build_feed_filter-Covers feed_ids manual 2 in
      let numbered = build_joined_filters-IsNumbered opts feed.next_idx "s" in
      let p = length-append (feed.params ++ filters.params) (Param.num fetch_limit ∷ []) in
      let q = length-append feed.params filters.params in
      rw
        (
          places-append feed.clause,
          places-append (append_filter_sql filters.clauses),
          places-append_filter_sql filters.clauses,
        )
        (Covers-to (omega (arith, p, q, counted, numbered.counted)) (
          Covers-first-more (places feed.clause) (places_all filters.clauses)
            (Covers-append (1 ∷ []) _ (omega arith) (omega (arith, numbered.counted)) (Covers-one 1)
              (Covers-append (places feed.clause) (places_all filters.clauses) (omega arith)
                (omega (arith, numbered.counted)) covered numbered.covered))
            (omega (arith, numbered.counted))))
