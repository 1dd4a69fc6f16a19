-- ===== src/Search/Filters/Numbering.antt =====
-- The places that the filters number, against a plain description: the conditions that are
-- present, in order, numbered on from the first free place.
use Prim.Native.String.{String}
use podlog.Base.{
  ℕ, ◌+◌, ◌≤◌, ◌≡◌, refl, sym, Bool, true, false, Option, none, some, List, [], ◌∷◌, ◌++◌, arith,
  Text, length, length-append, present, Option-cases, inl, inr, join, append-nil, append_assoc,
}
use podlog.Search.Sql.{
  Sql, text, Param, places, places-append, Covers, Covers-nil, Covers-one, Covers-two,
  Covers-append,
}
use podlog.Search.Filters.{
  FilterResult, FilterOptions, push, no_filters, build_joined_filters, build_metadata_filters,
  build_feed_filter, append_filter_sql,
}

abbrev pub places_all : List Sql → List ℕ
places_all [] = []
places_all (c ∷ cs) = places c ++ places_all cs

places_all-append : (a b : List Sql) → places_all (a ++ b) ≡ places_all a ++ places_all b
places_all-append [] b = refl
places_all-append (c ∷ a) b = simp (places_all-append a b, append_assoc)

-- A separator without places adds none.
pub places-join :
    (sep : Sql) (cs : List Sql) → places sep ≡ [] → places (join sep cs) ≡ places_all cs
places-join sep [] h = refl
places-join sep (c ∷ []) h = sym (append-nil (places c))
places-join sep (c ∷ d ∷ cs) h = simp (places-append, h, places-join sep (d ∷ cs) h)

pub record IsNumbered (start : ℕ) (r : FilterResult) : Type 0 where
  pub counted : r.next_idx ≡ start + length r.params
  pub covered : Covers start r.next_idx (places_all r.clauses)

no_filters-IsNumbered : (start : ℕ) → IsNumbered start (no_filters start)
no_filters-IsNumbered start = record { counted = omega arith; covered = Covers-nil start }

Covers-last :
    {start next : ℕ} (cs : List Sql) (c : Sql)
    → start ≤ next
    → Covers start next (places_all cs)
    → Covers next (next + 1) (places c)
    → Covers start (next + 1) (places_all (cs ++ c ∷ []))
Covers-last cs c p h k =
    rw (places_all-append cs (c ∷ []), append-nil)
      (Covers-append (places_all cs) (places c) p (omega arith) h k)

push-IsNumbered :
    {start : ℕ} (value : Option Text) (clause : ℕ → Sql) (param : Param) (r : FilterResult)
    → ((n : ℕ) → Covers n (n + 1) (places (clause n)))
    → IsNumbered start r
    → IsNumbered start (push value clause param r)
unfolding push
push-IsNumbered value clause param r one h = elim (Option-cases (present value)) [
  | inl e ↦ rw (push, e) h
  | inr (v, e) ↦
      rw (push, e)
        (record {
          counted = omega (arith, length-append r.params (param ∷ []), h.counted);
          covered =
              Covers-last r.clauses (clause r.next_idx) (omega arith) h.covered (one r.next_idx);
        })
]

-- The joined filters number their places on from the start, each parameter used.
pub build_joined_filters-IsNumbered :
    (opts : FilterOptions) (start : ℕ) (segment_alias : String)
    → IsNumbered start (build_joined_filters opts start segment_alias)
unfolding build_joined_filters
build_joined_filters-IsNumbered opts start segment_alias = push-IsNumbered _ _ _ _ Covers-one (
    push-IsNumbered _ _ _ _ Covers-one (
      push-IsNumbered _ _ _ _ Covers-two
        (push-IsNumbered _ _ _ _ Covers-one (no_filters-IsNumbered start))))

pub build_metadata_filters-IsNumbered :
    (opts : FilterOptions) (start : ℕ) → IsNumbered start (build_metadata_filters opts start)
unfolding build_metadata_filters
build_metadata_filters-IsNumbered opts start = push-IsNumbered _ _ _ _ Covers-one (
    push-IsNumbered _ _ _ _ Covers-two (
      push-IsNumbered _ _ _ _ Covers-one
        (push-IsNumbered _ _ _ _ Covers-one (no_filters-IsNumbered start))))

-- The feed filter takes one place where feeds are chosen, and none elsewhere.
pub build_feed_filter-Covers :
    (feed_ids : Option (List Text)) (manual : Bool) (start : ℕ)
    → let f = build_feed_filter feed_ids manual start in
      (f.next_idx ≡ start + length f.params) × Covers start f.next_idx (places f.clause)
unfolding build_feed_filter
build_feed_filter-Covers none true start = (omega arith, Covers-nil start)
build_feed_filter-Covers none false start = (omega arith, Covers-nil start)
build_feed_filter-Covers (some []) true start = (omega arith, Covers-nil start)
build_feed_filter-Covers (some []) false start = (omega arith, Covers-nil start)
build_feed_filter-Covers (some (x ∷ xs)) true start = (omega arith, Covers-one start)
build_feed_filter-Covers (some (x ∷ xs)) false start = (omega arith, Covers-one start)

-- `AND ` and the joined conditions have the places of the conditions.
pub places-append_filter_sql : (cs : List Sql) → places (append_filter_sql cs) ≡ places_all cs
unfolding append_filter_sql
places-append_filter_sql [] = refl
places-append_filter_sql (c ∷ cs) = places-join (text " AND " ∷ []) (c ∷ cs) refl
