-- ===== src/Queue/Tests.antt =====
-- The dashboard's queue on concrete jobs.
use podlog.Base.{
  ℕ, ◌+◌, ◌≡◌, refl, true, false, ◌&&◌, Option, none, some, List, [], ◌∷◌, ◌++◌, map, Text, codes,
  leb, if◌then◌else◌, length, keep,
}
use podlog.Queue.{Job, QueueState, stages, list_or_empty, compute_queue_view_model}
use podlog.Queue.Counts.{is_stage}
use podlog.Queue.View.{IsListed, is_wanted, compute_queue_view_model-jobs}

abbrev lower : Text → Text
lower = map (λ c. if leb b'A' c && leb c b'Z' then c + 32 else c)

abbrev time_of : Option Text → ℕ
time_of none = 0
time_of (some s) = length s

abbrev job : Text → Text → Text → Job
job id status updated_at = record {
  episode_id = id;
  title = some (codes "Big Fish");
  status = status;
  error_message = none;
  error_class = none;
  retry_count = 0;
  retry_max = 3;
  feed_mode = none;
  feed_title = some (codes "Sea");
  updated_at = some updated_at;
}

abbrev queue : QueueState
queue = record {
  active_count = 2;
  pending_count = 1;
  failed_count = 0;
  done_count = 7;
  stuck_count = 1;
  active_jobs =
      job (codes "a") (codes "diarizing") (codes "1")
      ∷ job (codes "b") (codes "diarizing") (codes "11")
      ∷ [];
  pending_jobs = job (codes "c") (codes "pending") (codes "1") ∷ [];
  failed_jobs = [];
  done_jobs =
      job (codes "d") (codes "done") (codes "1")
      ∷ job (codes "e") (codes "no_speech") (codes "1")
      ∷ [];
  stuck_jobs = some (job (codes "f") (codes "stuck") (codes "1") ∷ []);
}

diarizing_is_stage : is_stage (codes "diarizing") stages ≡ true
unfolding stages
diarizing_is_stage = refl

compute_queue_view_model-jobs_example :
    let view = compute_queue_view_model lower time_of queue (codes "FISH") none false in
    (stuck : List Job) × (failed : List Job) × (active : List Job) × (pending : List Job)
    × (view.all_jobs ≡ stuck ++ (failed ++ (active ++ pending)))
    × IsListed lower time_of 1 stuck (list_or_empty queue.stuck_jobs)
    × IsListed lower time_of 1 failed queue.failed_jobs
    × IsListed lower time_of 1 active queue.active_jobs
    × IsListed lower time_of 1 pending queue.pending_jobs
    × (view.filtered ≡ keep (is_wanted lower time_of (lower (codes "FISH")) none) view.all_jobs)
    × (view.filtered_done
        ≡ keep (is_wanted lower time_of (lower (codes "FISH")) none) queue.done_jobs)
compute_queue_view_model-jobs_example =
    compute_queue_view_model-jobs lower time_of queue (codes "FISH") none false 1
