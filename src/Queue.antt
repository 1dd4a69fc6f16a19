-- ===== src/Queue.antt =====
-- apps/web/src/lib/queueStatus.ts: the stages of the pipeline and what the dashboard shows of the
-- queue. A status is a text, as in the source; a set of texts is a list.
pub mod Counts
pub mod View
mod Tests
use Prim.Native.String.{String}
use podlog.Base.{
  ℕ, zero, ◌+◌, Bool, true, false, not, ◌&&◌, ◌||◌, Option, none, some, List, [], ◌∷◌, ◌++◌, map,
  Text, codes, text_eq, any, keep, find, includes, ltb, is_empty, present, if◌then◌else◌, ◌==◌,
  length,
}
use podlog.Base.Assoc.{lookup, set_key}
use podlog.Base.Sort.{sort}

pub record Job : Type 0 where
  pub episode_id : Text
  pub title : Option Text
  pub status : Text
  pub error_message : Option Text
  pub error_class : Option Text
  pub retry_count : ℕ
  pub retry_max : ℕ
  pub feed_mode : Option Text
  pub feed_title : Option Text
  pub updated_at : Option Text

-- `stuck_jobs` is read with `?? []`, so it may be missing.
pub record QueueState : Type 0 where
  pub active_count : ℕ
  pub pending_count : ℕ
  pub failed_count : ℕ
  pub done_count : ℕ
  pub stuck_count : ℕ
  pub active_jobs : List Job
  pub pending_jobs : List Job
  pub failed_jobs : List Job
  pub done_jobs : List Job
  pub stuck_jobs : Option (List Job)

pub record Stage : Type 0 where
  pub key : Text
  pub label : Text
  pub color : Text
  pub bg : Text
  pub in_bar : Bool

abbrev stage : String → String → String → String → Stage
stage key label color bg = record {
  key = codes key;
  label = codes label;
  color = codes color;
  bg = codes bg;
  in_bar = true;
}

unfoldable pub stages : List Stage
stages =
    stage "pending" "Pending" "#eab308" "rgba(234,179,8,0.15)"
    ∷ stage "downloading" "Downloading" "#06b6d4" "rgba(6,182,212,0.15)"
    ∷ stage "transcribing" "Transcribing" "#2563eb" "rgba(37,99,235,0.15)"
    ∷ stage "diarizing" "Diarizing" "#7c3aed" "rgba(124,58,237,0.15)"
    ∷ stage "chunking" "Chunking" "#0891b2" "rgba(8,145,178,0.15)"
    ∷ stage "embedding" "Embedding" "#4f46e5" "rgba(79,70,229,0.15)"
    ∷ stage "inferring" "Inferring" "#f97316" "rgba(249,115,22,0.15)"
    ∷ stage "archiving" "Archiving" "#14b8a6" "rgba(20,184,166,0.15)"
    ∷ stage "done" "Done" "#16a34a" "rgba(22,163,74,0.15)"
    ∷ record (stage "no_speech" "No speech" "#d97706" "rgba(217,119,6,0.15)") { in_bar = false }
    ∷ stage "failed" "Failed" "#dc2626" "rgba(220,38,38,0.15)"
    ∷ stage "stuck" "Stuck" "#a855f7" "rgba(168,85,247,0.15)"
    ∷ []

unfoldable pub bar_stages : List Stage
unfolding stages
bar_stages = keep (λ s. s.in_bar) stages

abbrev pub in_set : List Text → Text → Bool
in_set set key = any (λ k. text_eq k key) set

unfoldable pub active_statuses : List Text
active_statuses =
    codes "downloading"
    ∷ codes "transcribing"
    ∷ codes "diarizing"
    ∷ codes "chunking"
    ∷ codes "embedding"
    ∷ codes "inferring"
    ∷ codes "archiving"
    ∷ []

unfoldable pub processing_steps : List Text
unfolding stages active_statuses
processing_steps = map (λ s. s.key) (keep (λ s. in_set active_statuses s.key) stages)

unfoldable pub stage_label : Text → Text
unfolding stages
stage_label status = elim (find (λ s. text_eq s.key status) stages) [
  | none ↦ status
  | some s ↦ s.label
]

unfoldable pub terminal_statuses : List Text
terminal_statuses = codes "done" ∷ codes "failed" ∷ codes "no_speech" ∷ []

unfoldable pub non_retryable : List Text
non_retryable =
    codes "DISK_FULL" ∷ codes "OOM" ∷ codes "MANUAL_UPLOAD_FILE_MISSING" ∷ codes "NO_SPEECH" ∷ []

unfoldable pub error_labels : List (Text × Text)
error_labels =
    (codes "TRANSIENT_NETWORK", codes "Network error")
    ∷ (codes "HTTP_ACCESS", codes "Access error")
    ∷ (codes "DISK_FULL", codes "Disk full — free space and retry")
    ∷ (codes "OOM", codes "Out of memory — check hardware requirements")
    ∷ (codes "SYSTEM_ERROR", codes "Unexpected error")
    ∷ (codes "MANUAL_UPLOAD_FILE_MISSING", codes "Manual upload file missing — re-upload and retry")
    ∷ (codes "NO_SPEECH", codes "No speech detected — nothing to index")
    ∷ []

abbrev pub list_or_empty : Option (List Job) → List Job
list_or_empty none = []
list_or_empty (some jobs) = jobs

abbrev pub Counts : Type 0
Counts = List (Text × ℕ)

-- `counts[key] || 0`
abbrev pub count_or_zero : Option ℕ → ℕ
count_or_zero none = 0
count_or_zero (some n) = n

unfoldable pub seed : List Stage → Counts → Counts
seed [] counts = counts
seed (s ∷ rest) counts = seed rest (set_key s.key 0 counts)

unfoldable pub count_jobs : List Job → Counts → Counts
count_jobs [] counts = counts
count_jobs (j ∷ jobs) counts =
    count_jobs jobs (set_key j.status (count_or_zero (lookup j.status counts) + 1) counts)

unfoldable pub stage_counts : QueueState → Counts
stage_counts queue =
    let all_jobs =
      queue.active_jobs
      ++ (queue.pending_jobs ++ (queue.failed_jobs ++ list_or_empty queue.stuck_jobs)) in
    set_key (codes "done") queue.done_count (count_jobs all_jobs (seed stages []))

pub record QueueViewModel : Type 0 where
  pub counts : Counts
  pub all_jobs : List Job
  pub filtered : List Job
  pub filtered_done : List Job
  pub effective_show_done : Bool
  pub is_empty_view : Bool

abbrev pub text_or_empty : Option Text → Text
text_or_empty none = []
text_or_empty (some s) = s

-- `lower` is `toLowerCase`, and `time_of` is `new Date(updated_at ?? 0).getTime()`; the tables and
-- the calendar behind them belong to the run-time system.
module _ (lower : Text → Text) (time_of : Option Text → ℕ) where
  abbrev pub updated_later : Job → Job → Bool
  updated_later a b = ltb (time_of b.updated_at) (time_of a.updated_at)

  unfoldable pub sort_by_updated : List Job → List Job
  sort_by_updated jobs = sort updated_later jobs

  unfoldable pub matches_search : Text → Job → Bool
  matches_search q j =
      includes (lower (text_or_empty j.title)) q || includes (lower (text_or_empty j.feed_title)) q

  unfoldable pub matches_stage : Option Text → Job → Bool
  matches_stage stage_filter j = elim (present stage_filter) [
    | none ↦ true
    | some s ↦
        text_eq j.status s || text_eq s (codes "done") && text_eq j.status (codes "no_speech")
  ]

  abbrev is_done_filter : Option Text → Bool
  is_done_filter none = false
  is_done_filter (some s) = text_eq s (codes "done")

  unfoldable pub compute_queue_view_model :
      QueueState
      → (search : Text) → (stage_filter : Option Text) → (show_done : Bool) → QueueViewModel
  compute_queue_view_model queue search stage_filter show_done =
      let all_jobs =
        sort_by_updated (list_or_empty queue.stuck_jobs)
        ++ (sort_by_updated queue.failed_jobs
            ++ (sort_by_updated queue.active_jobs ++ sort_by_updated queue.pending_jobs)) in
      let matching = λ (j : Job). matches_search (lower search) j && matches_stage stage_filter j in
      record {
        counts = stage_counts queue;
        all_jobs = all_jobs;
        filtered = keep matching all_jobs;
        filtered_done = keep matching queue.done_jobs;
        effective_show_done = show_done || is_done_filter stage_filter;
        is_empty_view = is_empty all_jobs && queue.done_count == 0;
      }
