-- ===== src/Search/Grouping.antt =====
-- apps/web/src/lib/search/grouping.ts: the rows of the grouped search, gathered by feed.
pub mod Totals
use podlog.Base.{ℕ, ◌+◌, Option, none, some, List, [], ◌∷◌, ◌++◌, Text, codes}
use podlog.Base.Assoc.{lookup, set_key, values}
use podlog.Search.Pool.{GroupingRow}

-- The rank is a number already, which `parseFloat(String(rank))` gives back.
pub record EpisodeGroup (Num : Type 0) : Type 0 where
  pub episode_id : Text
  pub episode_title : Text
  pub audio_url : Text
  pub audio_local_path : Option Text
  pub episode_url : Option Text
  pub mention_count : ℕ
  pub best_rank : Num

-- `feed_id` stays null for manual uploads.
pub record FeedGroup (Num : Type 0) : Type 0 where
  pub feed_id : Option Text
  pub feed_title : Text
  pub feed_mode : Text
  pub mention_count : ℕ
  pub episodes : List (EpisodeGroup Num)

abbrev pub feed_key : Option Text → Text
feed_key none = codes "__manual__"
feed_key (some id) = id

module _ {Num : Type 0} where
  abbrev pub episode_of : GroupingRow Num → EpisodeGroup Num
  episode_of row = record {
    episode_id = row.episode_id;
    episode_title = row.episode_title;
    audio_url = row.audio_url;
    audio_local_path = row.audio_local_path;
    episode_url = row.episode_url;
    mention_count = row.mention_count;
    best_rank = row.best_rank;
  }

  abbrev pub new_feed : GroupingRow Num → FeedGroup Num
  new_feed row = record {
    feed_id = row.feed_id;
    feed_title = row.feed_title;
    feed_mode = row.feed_mode;
    mention_count = 0;
    episodes = [];
  }

  abbrev pub add_episode : GroupingRow Num → FeedGroup Num → FeedGroup Num
  add_episode row feed = record feed {
    mention_count = feed.mention_count + row.mention_count;
    episodes = feed.episodes ++ episode_of row ∷ [];
  }

  abbrev pub feed_for : GroupingRow Num → Option (FeedGroup Num) → FeedGroup Num
  feed_for row none = new_feed row
  feed_for row (some feed) = feed

  -- The body of the loop: the feed is made where it is missing, and the episode added to it.
  unfoldable pub group_row :
      GroupingRow Num → List (Text × FeedGroup Num) → List (Text × FeedGroup Num)
  group_row row feed_map =
      let key = feed_key row.feed_id in
      set_key key (add_episode row (feed_for row (lookup key feed_map))) feed_map

  unfoldable pub group_rows :
      List (GroupingRow Num) → List (Text × FeedGroup Num) → List (Text × FeedGroup Num)
  group_rows [] feed_map = feed_map
  group_rows (row ∷ rows) feed_map = group_rows rows (group_row row feed_map)

  unfoldable pub group_rows_by_feed : List (GroupingRow Num) → List (FeedGroup Num)
  group_rows_by_feed rows = values (group_rows rows [])
