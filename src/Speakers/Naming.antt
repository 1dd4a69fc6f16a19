-- ===== src/Speakers/Naming.antt =====
-- apps/web/src/app/api/episodes/[id]/speakers/route.ts: naming a speaker, and dismissing a name.
use podlog.Base.{
  ℕ, ◌+◌, Bool, true, false, ◌&&◌, Option, none, some, List, [], ◌∷◌, find, Text, codes, text_eq,
  is_empty, trim, present, if◌then◌else◌,
}
use podlog.Speakers.{SpeakerRole, host, guest, other, NameRow, CacheRow, EpisodeRow, Store}
use podlog.Speakers.Transaction.{Try, pure, ◌>>◌, try_catch, query, begin, commit, rollback}
use podlog.Speakers.Names.{normalize_name}

-- The field `role` of a body: not there, null, or a text.
pub data RoleField : Type 0 where
  absent null : RoleField
  role_text : Text → RoleField

-- A body. A field that is not there, or of another falsy value, is `none`; the fields are texts
-- otherwise.
pub record NameRequest : Type 0 where
  pub speaker_label : Option Text
  pub display_name : Option Text
  pub role : RoleField

pub data NameReply : Type 0 where
  missing_field bad_role failed no_name saved : NameReply

pub record NameAnswers : Type 0 where
  pub connect : Bool
  pub begin : Bool
  pub upsert_name : Bool
  pub upsert_cache : Bool
  pub commit : Bool
  pub rollback : Bool

-- VALID_ROLES
abbrev pub valid_role : Text → Option SpeakerRole
valid_role t =
    if text_eq t (codes "host")
    then some host
    else if text_eq t (codes "guest")
    then some guest
    else if text_eq t (codes "other")
    then some other
    else none

-- The role that a request sets: `none` keeps the one that is there, and `some none` clears it.
abbrev pub role_change : RoleField → Option (Option (Option SpeakerRole))
role_change absent = some none
role_change null = some (some none)
role_change (role_text t) = elim (valid_role t) [ none ↦ none | some r ↦ some (some (some r)) ]

abbrev pub is_name_of : (episode_id label : Text) → NameRow → Bool
is_name_of episode_id label n = text_eq n.episode_id episode_id && text_eq n.speaker_label label

-- `CASE WHEN $4 THEN EXCLUDED.role ELSE speaker_names.role END`
abbrev pub chosen_role :
    Option (Option SpeakerRole) → (old : Option SpeakerRole) → Option SpeakerRole
chosen_role none old = old
chosen_role (some r) old = r

-- `INSERT INTO speaker_names ... ON CONFLICT (episode_id, speaker_label) DO UPDATE`
abbrev pub upsert_name :
    (episode_id label display_name : Text)
    → Option (Option SpeakerRole)
    → List NameRow
    → List NameRow
upsert_name episode_id label display_name change [] =
    record {
      episode_id = episode_id;
      speaker_label = label;
      display_name = display_name;
      inferred = false;
      confirmed_by_user = true;
      role = chosen_role change none;
      needs_review = false;
    }
    ∷ []
upsert_name episode_id label display_name change (n ∷ ns) =
    if is_name_of episode_id label n
    then record n {
      display_name = display_name;
      inferred = false;
      confirmed_by_user = true;
      role = chosen_role change n.role;
      needs_review = false;
    }
      ∷ ns
    else n ∷ upsert_name episode_id label display_name change ns

abbrev pub is_cache_of : (feed_id label normalized : Text) → CacheRow → Bool
is_cache_of feed_id label normalized c =
    text_eq c.feed_id feed_id
    && text_eq c.speaker_label label
    && text_eq c.normalized_name normalized

-- `INSERT INTO feed_speaker_cache ... ON CONFLICT ... DO UPDATE`
abbrev pub upsert_cache_row : CacheRow → List CacheRow → List CacheRow
upsert_cache_row new [] = new ∷ []
upsert_cache_row new (c ∷ cs) =
    if is_cache_of new.feed_id new.speaker_label new.normalized_name c
    then record c {
      display_name = new.display_name;
      occurrence_count = c.occurrence_count + 1;
      last_seen_episode_id = new.last_seen_episode_id;
      last_seen_at = new.last_seen_at;
    }
      ∷ cs
    else c ∷ upsert_cache_row new cs

abbrev pub feed_of : (episode_id : Text) → List EpisodeRow → Option Text
feed_of episode_id episodes = elim (find (λ (e : EpisodeRow). text_eq e.id episode_id) episodes) [
  | none ↦ none
  | some e ↦ e.feed_id
]

-- `lower` is `toLowerCase`, and `now` the time of the transaction.
module _ (lower : Text → Text) (now : ℕ) where
  abbrev pub cache_for :
      Option Text → (episode_id label display_name : Text) → List CacheRow → List CacheRow
  cache_for none episode_id label display_name cache = cache
  cache_for (some feed_id) episode_id label display_name cache =
      upsert_cache_row
        (record {
          feed_id = feed_id;
          speaker_label = label;
          display_name = display_name;
          normalized_name = normalize_name lower display_name;
          occurrence_count = 1;
          last_seen_episode_id = episode_id;
          last_seen_at = now;
        })
        cache

module _ {Turns : Type 0} (lower : Text → Text) (now : ℕ) where
  abbrev pub save_name :
      (episode_id label display_name : Text)
      → Option (Option SpeakerRole)
      → Store Turns
      → Unit {0} × Store Turns
  save_name episode_id label display_name change s = (
    tt,
    record s { speaker_names = upsert_name episode_id label display_name change s.speaker_names },
  )

  abbrev pub save_cache :
      (episode_id label display_name : Text) → Store Turns → Unit {0} × Store Turns
  save_cache episode_id label display_name s = (
    tt,
    record s {
      feed_speaker_cache =
          cache_for lower now (feed_of episode_id s.episodes) episode_id label display_name
            s.feed_speaker_cache;
    },
  )

  unfoldable pub name_transaction :
      NameAnswers
      → (episode_id label display_name : Text) → Option (Option SpeakerRole)
      → Try (Store Turns) NameReply
  name_transaction answers episode_id label display_name change =
      begin answers.begin
      >> (query answers.upsert_name (save_name episode_id label display_name change)
          >> (query answers.upsert_cache (save_cache episode_id label display_name)
              >> (commit answers.commit >> pure saved)))

  -- `throw err` behind the rollback, and the outer `catch`; an error of `pool.connect` or of the
  -- rollback leads there too.
  abbrev pub name_valid :
      NameAnswers
      → (episode_id label display_name : Text) → Option (Option SpeakerRole)
      → Try (Store Turns) NameReply
  name_valid answers episode_id label display_name change db =
      if answers.connect
      then try_catch
          (try_catch (name_transaction answers episode_id label display_name change)
            (rollback answers.rollback >> pure failed))
          (pure failed) db
      else (some failed, db)

  abbrev pub name_checked :
      Option (Option (Option SpeakerRole))
      → NameAnswers
      → (episode_id label display_name : Text) → Try (Store Turns) NameReply
  name_checked none answers episode_id label display_name = pure bad_role
  name_checked (some change) answers episode_id label display_name =
      name_valid answers episode_id label display_name change

  abbrev pub name_fields :
      NameAnswers
      → (episode_id : Text) → (label display_name : Option Text) → RoleField
      → Try (Store Turns) NameReply
  name_fields answers episode_id (some label) (some display_name) role =
      if is_empty (trim display_name)
      then pure missing_field
      else name_checked (role_change role) answers episode_id label (trim display_name)
  name_fields answers episode_id _ _ role = pure missing_field

  -- `PUT`. `none` is a body that is no JSON.
  unfoldable pub name_speaker :
      NameAnswers → (episode_id : Text) → Option NameRequest → Try (Store Turns) NameReply
  name_speaker answers episode_id none = pure failed
  name_speaker answers episode_id (some body) =
      name_fields answers episode_id (present body.speaker_label) body.display_name body.role
