-- ===== src/Speakers.antt =====
-- The speakers of an episode: the tables segments and speaker_names, the routes that change them,
-- and the transcript page that shows them.
pub mod Transaction
pub mod Merging
pub mod Names
pub mod Naming
pub mod Dismissal
pub mod View
pub mod Info
pub mod Panel
mod Tests
use podlog.Base.{ℕ, Bool, Option, none, some, List, Text}

pub data SpeakerRole : Type 0 where
  host guest other : SpeakerRole

-- The rows of segments that the routes read and write, without their times: they stand in the order
-- of their start.
pub record SegmentRow : Type 0 where
  pub episode_id : Text
  pub id : ℕ
  pub speaker_label : Option Text
  pub text : Text

-- The primary key of a name is its episode with its label.
pub record NameRow : Type 0 where
  pub episode_id : Text
  pub speaker_label : Text
  pub display_name : Text
  pub inferred : Bool
  pub confirmed_by_user : Bool
  pub role : Option SpeakerRole
  pub needs_review : Bool

pub record CacheRow : Type 0 where
  pub feed_id : Text
  pub speaker_label : Text
  pub display_name : Text
  pub normalized_name : Text
  pub occurrence_count : ℕ
  pub last_seen_episode_id : Text
  pub last_seen_at : ℕ

pub record EpisodeRow : Type 0 where
  pub id : Text
  pub feed_id : Option Text

module _ (Turns : Type 0) where
  -- `turns` is what the database's function rebuild_speaker_turns writes.
  pub record Store : Type 0 where
    pub episodes : List EpisodeRow
    pub segments : List SegmentRow
    pub speaker_names : List NameRow
    pub feed_speaker_cache : List CacheRow
    pub turns : Turns
