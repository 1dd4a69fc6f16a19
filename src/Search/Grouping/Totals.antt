-- ===== src/Search/Grouping/Totals.antt =====
-- Grouping keeps every row, once, under its feed, in the order of the rows.
use podlog.Base.{
  ℕ, ◌+◌, ◌≡◌, refl, ap, sym, ◌∙◌, Option, none, some, List, [], ◌∷◌, ◌++◌, map, arith, Text,
  text_eq, text_eq→eq, Bool-cases, inl, inr, if◌then◌else◌, keep, append_assoc, append-nil,
  keep-append,
}
use mathlib.Core.List.{map-append}
use podlog.Base.Assoc.{lookup, keys, values, IsDistinct, set_key-IsDistinct, lookup-set_key}
use podlog.Search.Pool.{GroupingRow}
use podlog.Search.Grouping.{
  EpisodeGroup, FeedGroup, feed_key, episode_of, add_episode, feed_for, group_row, group_rows,
  group_rows_by_feed,
}

module _ {Num : Type 0} where
  pub mentions : List (GroupingRow Num) → ℕ
  mentions [] = 0
  mentions (row ∷ rows) = row.mention_count + mentions rows

  -- The episodes of a feed, as the rows give them.
  abbrev pub rows_of : Text → List (GroupingRow Num) → List (GroupingRow Num)
  rows_of key = keep (λ row. text_eq (feed_key row.feed_id) key)

  abbrev pub episodes_at : Option (FeedGroup Num) → List (EpisodeGroup Num)
  episodes_at none = []
  episodes_at (some feed) = feed.episodes

  abbrev pub count_at : Option (FeedGroup Num) → ℕ
  count_at none = 0
  count_at (some feed) = feed.mention_count

  module _ (key : Text) (row : GroupingRow Num) (m : List (Text × FeedGroup Num)) where
    -- What `key` stands for after a row, in terms of what it stood for.
    abbrev after : Option (FeedGroup Num) → Option (FeedGroup Num)
    after o =
        if text_eq (feed_key row.feed_id) key then some (add_episode row (feed_for row o)) else o

    lookup-group_row : lookup key (group_row row m) ≡ after (lookup key m)
    unfolding group_row
    lookup-group_row =
        lookup-set_key (feed_key row.feed_id) key _ m
        ∙ elim (Bool-cases (text_eq (feed_key row.feed_id) key)) [
          | inl e ↦
              rw e
                (ap (λ k. some (add_episode row (feed_for row (lookup k m)))) (text_eq→eq _ key e))
          | inr e ↦ rw e refl
        ]

    episodes-after :
        (o : Option (FeedGroup Num))
        → episodes_at (after o) ≡ episodes_at o ++ map episode_of (rows_of key (row ∷ []))
    episodes-after none = elim (Bool-cases (text_eq (feed_key row.feed_id) key)) [
      | inl e ↦ rw e refl
      | inr e ↦ rw e refl
    ]
    episodes-after (some f) = elim (Bool-cases (text_eq (feed_key row.feed_id) key)) [
      | inl e ↦ rw e refl
      | inr e ↦ rw e (sym (append-nil _))
    ]

    count-after :
        (o : Option (FeedGroup Num))
        → count_at (after o) ≡ count_at o + mentions (rows_of key (row ∷ []))
    unfolding mentions
    count-after none = ground arith
    count-after (some f) = ground arith

    episodes-group_row :
        episodes_at (lookup key (group_row row m))
        ≡ episodes_at (lookup key m) ++ map episode_of (rows_of key (row ∷ []))
    episodes-group_row = ap episodes_at lookup-group_row ∙ episodes-after (lookup key m)

    count-group_row :
        count_at (lookup key (group_row row m))
        ≡ count_at (lookup key m) + mentions (rows_of key (row ∷ []))
    count-group_row = ap count_at lookup-group_row ∙ count-after (lookup key m)

  rows_of-cons :
      (key : Text) (row : GroupingRow Num) (rows : List (GroupingRow Num))
      → rows_of key (row ∷ rows) ≡ rows_of key (row ∷ []) ++ rows_of key rows
  rows_of-cons key row rows = keep-append (λ r. text_eq (feed_key r.feed_id) key) (row ∷ []) rows

  mentions-append : (a b : List (GroupingRow Num)) → mentions (a ++ b) ≡ mentions a + mentions b
  unfolding mentions
  mentions-append [] b = omega arith
  mentions-append (row ∷ a) b = omega (arith, mentions-append a b)

  episodes-group_rows :
      (key : Text) (rows : List (GroupingRow Num)) (m : List (Text × FeedGroup Num))
      → episodes_at (lookup key (group_rows rows m))
        ≡ episodes_at (lookup key m) ++ map episode_of (rows_of key rows)
  unfolding group_rows
  episodes-group_rows key [] m = sym (append-nil _)
  episodes-group_rows key (row ∷ rows) m =
      episodes-group_rows key rows (group_row row m)
      ∙ rw (episodes-group_row key row m, rows_of-cons key row rows, map-append)
          (append_assoc (episodes_at (lookup key m)) (map episode_of (rows_of key (row ∷ [])))
            (map episode_of (rows_of key rows)))

  count-group_rows :
      (key : Text) (rows : List (GroupingRow Num)) (m : List (Text × FeedGroup Num))
      → count_at (lookup key (group_rows rows m))
        ≡ count_at (lookup key m) + mentions (rows_of key rows)
  unfolding group_rows mentions
  count-group_rows key [] m = omega arith
  count-group_rows key (row ∷ rows) m = rw (rows_of-cons key row rows) (
      omega (
        arith,
        mentions-append (rows_of key (row ∷ [])) (rows_of key rows),
        count-group_rows key rows (group_row row m),
        count-group_row key row m,
      ))

  group_rows-IsDistinct :
      (rows : List (GroupingRow Num)) (m : List (Text × FeedGroup Num))
      → IsDistinct (keys m)
      → IsDistinct (keys (group_rows rows m))
  unfolding group_rows group_row
  group_rows-IsDistinct [] m d = d
  group_rows-IsDistinct (row ∷ rows) m d =
      group_rows-IsDistinct rows _ (set_key-IsDistinct (feed_key row.feed_id) _ m d)

  -- Grouping has no feed twice; the episodes of a feed are those of its rows, in their order, and
  -- its count of mentions is the sum of theirs.
  pub group_rows-keeps :
      (rows : List (GroupingRow Num))
      → let grouped = group_rows rows [] in
        (group_rows_by_feed rows ≡ values grouped)
        × IsDistinct (keys grouped)
        × ((key : Text)
            → (episodes_at (lookup key grouped) ≡ map episode_of (rows_of key rows))
              × (count_at (lookup key grouped) ≡ mentions (rows_of key rows)))
  unfolding group_rows_by_feed
  group_rows-keeps rows = (
    refl,
    group_rows-IsDistinct rows [] tt,
    λ key. (episodes-group_rows key rows [], rw (count-group_rows key rows []) (omega arith)),
  )
