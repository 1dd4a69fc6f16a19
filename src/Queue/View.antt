-- ===== src/Queue/View.antt =====
-- What the dashboard shows: every job that is not done, sorted by its update, and behind the
-- filter Done every finished job.
use mathlib.Core.List.{Perm}
use podlog.Base.{
  ℕ, ◌≤◌, ◌==◌, ◌≡◌, refl, ap, Bool, true, false, ◌&&◌, ◌||◌, Option, none, some, List, [], ◌∷◌,
  ◌++◌, arith, Text, codes, text_eq, All, keep, includes,
}
use podlog.Base.Assoc.{text_eq_comm}
use podlog.Base.Sort.{sort-perm, IsSorted, sort-IsSorted, keep-sort}
use podlog.Queue.{
  Job, QueueState, list_or_empty, updated_later, sort_by_updated, matches_search, matches_stage,
  compute_queue_view_model, text_or_empty,
}

-- The empty text is found in every text.
includes_empty : (t : Text) → includes t [] ≡ true
includes_empty [] = refl
includes_empty (c ∷ t) = refl

keep-All {ℓ} : {A : Type ℓ} (p : A → Bool) (xs : List A) → All (λ x. p x ≡ true) xs → keep p xs ≡ xs
keep-All p [] h = refl
keep-All p (x ∷ xs) (e, h) = rw e (ap (◌∷◌ x) (keep-All p xs h))

-- What rests in the done bucket.
abbrev pub IsFinished : Job → Type 0
IsFinished j = (text_eq j.status (codes "done") || text_eq j.status (codes "no_speech")) ≡ true

module _ (lower : Text → Text) (time_of : Option Text → ℕ) where
  matches_search-empty : (j : Job) → matches_search lower time_of [] j ≡ true
  unfolding matches_search
  matches_search-empty j = ground (arith, includes_empty (lower (text_or_empty j.title)))

  matches-finished :
      (jobs : List Job)
      → All IsFinished jobs
      → All
          (λ j.
            (matches_search lower time_of [] j
              && matches_stage lower time_of (some (codes "done")) j)
            ≡ true)
          jobs
  unfolding matches_stage
  matches-finished [] h = tt
  matches-finished (j ∷ jobs) (f, h) = (rw (matches_search-empty j) f, matches-finished jobs h)

  -- Where the lower case of the empty text is empty and every job of the done bucket is done or
  -- without speech, the filter Done, with nothing searched for, shows the whole bucket, in its
  -- order, and the list is open.
  compute_queue_view_model-done :
      (queue : QueueState) (show_done : Bool)
      → lower [] ≡ []
      → All IsFinished queue.done_jobs
      → let view =
          compute_queue_view_model lower time_of queue [] (some (codes "done")) show_done in
        (view.filtered_done ≡ queue.done_jobs) × (view.effective_show_done ≡ true)
  unfolding compute_queue_view_model
  compute_queue_view_model-done queue show_done e h =
      (rw e (keep-All _ queue.done_jobs (matches-finished queue.done_jobs h)), ground arith)

  -- No job stands in front of one that was updated after it.
  abbrev pub LatestFirst : List Job → Type 0
  LatestFirst [] = Unit
  LatestFirst (x ∷ xs) =
      All {A = Job} (λ (y : Job). time_of y.updated_at ≤ time_of x.updated_at) xs × LatestFirst xs

  abbrev pub was_updated_at : ℕ → Job → Bool
  was_updated_at t j = time_of j.updated_at == t

  -- What a group of the list is, of the jobs that the queue has in it: of the jobs that were
  -- updated at `t`, it keeps the order.
  abbrev pub IsListed : ℕ → List Job → List Job → Type 0
  IsListed t group jobs =
      Perm group jobs
      × LatestFirst group
      × (keep (was_updated_at t) group ≡ keep (was_updated_at t) jobs)

  abbrev names : Text → Job → Bool
  names q j =
      includes (lower (text_or_empty j.title)) q || includes (lower (text_or_empty j.feed_title)) q

  -- A job that has the text in its title or its feed's title and is at the stage, where one is
  -- given; a job without speech is at the stage done too.
  abbrev pub is_wanted : Text → Option Text → Job → Bool
  is_wanted q none j = names q j
  is_wanted q (some []) j = names q j
  is_wanted q (some (c ∷ s)) j =
      names q j
      && (text_eq (c ∷ s) j.status
          || (text_eq j.status (codes "no_speech") && text_eq (codes "done") (c ∷ s)))

  All-latest :
      (x : Job) (xs : List Job)
      → All (λ y. updated_later lower time_of y x ≡ false) xs
      → All {A = Job} (λ (y : Job). time_of y.updated_at ≤ time_of x.updated_at) xs
  All-latest x [] h = tt
  All-latest x (y ∷ xs) (p, h) = (ground arith, All-latest x xs h)

  IsSorted-LatestFirst :
      (xs : List Job) → IsSorted (updated_later lower time_of) xs → LatestFirst xs
  IsSorted-LatestFirst [] h = tt
  IsSorted-LatestFirst (x ∷ xs) (p, h) = (All-latest x xs p, IsSorted-LatestFirst xs h)

  sort_by_updated-IsListed :
      (t : ℕ) (jobs : List Job) → IsListed t (sort_by_updated lower time_of jobs) jobs
  unfolding sort_by_updated
  sort_by_updated-IsListed t jobs = (
    sort-perm _ jobs,
    IsSorted-LatestFirst _ (
        sort-IsSorted (updated_later lower time_of) (λ a b h. ground arith)
          (λ a b c h k. ground arith) jobs),
    keep-sort (updated_later lower time_of) (was_updated_at t) (λ a b h k. ground arith) jobs,
  )

  matches-is_wanted :
      (q : Text) (stage_filter : Option Text) (j : Job)
      → (matches_search lower time_of q j && matches_stage lower time_of stage_filter j)
        ≡ is_wanted q stage_filter j
  unfolding matches_search matches_stage
  matches-is_wanted q none j = ground arith
  matches-is_wanted q (some []) j = ground arith
  matches-is_wanted q (some (c ∷ s)) j =
      rw (text_eq_comm j.status (c ∷ s), text_eq_comm (codes "done") (c ∷ s)) (ground arith)

  keep-is_wanted :
      (q : Text) (stage_filter : Option Text) (xs : List Job)
      → keep
          (λ j. matches_search lower time_of q j && matches_stage lower time_of stage_filter j)
          xs
        ≡ keep (is_wanted q stage_filter) xs
  keep-is_wanted q stage_filter [] = refl
  keep-is_wanted q stage_filter (x ∷ xs) =
      rw (matches-is_wanted q stage_filter x, keep-is_wanted q stage_filter xs) refl

  -- The list shows the stuck, failed, active and pending jobs, in this order of groups: each
  -- group complete, no job in front of one that was updated after it, and the jobs of one time
  -- in the order in which the queue has them. With a text and a stage, the list and the done jobs
  -- keep their order and leave out the jobs that have the text in neither title, in lower case,
  -- or are not at the stage, at which, for done, a job without speech is too.
  pub compute_queue_view_model-jobs :
      (queue : QueueState) (search : Text) (stage_filter : Option Text) (show_done : Bool) (t : ℕ)
      → let view = compute_queue_view_model lower time_of queue search stage_filter show_done in
        (stuck : List Job) × (failed : List Job) × (active : List Job) × (pending : List Job)
        × (view.all_jobs ≡ stuck ++ (failed ++ (active ++ pending)))
        × IsListed t stuck (list_or_empty queue.stuck_jobs)
        × IsListed t failed queue.failed_jobs
        × IsListed t active queue.active_jobs
        × IsListed t pending queue.pending_jobs
        × (view.filtered ≡ keep (is_wanted (lower search) stage_filter) view.all_jobs)
        × (view.filtered_done ≡ keep (is_wanted (lower search) stage_filter) queue.done_jobs)
  unfolding compute_queue_view_model
  compute_queue_view_model-jobs queue search stage_filter show_done t = (
    sort_by_updated lower time_of (list_or_empty queue.stuck_jobs),
    sort_by_updated lower time_of queue.failed_jobs,
    sort_by_updated lower time_of queue.active_jobs,
    sort_by_updated lower time_of queue.pending_jobs,
    refl,
    sort_by_updated-IsListed t (list_or_empty queue.stuck_jobs),
    sort_by_updated-IsListed t queue.failed_jobs,
    sort_by_updated-IsListed t queue.active_jobs,
    sort_by_updated-IsListed t queue.pending_jobs,
    keep-is_wanted (lower search) stage_filter _,
    keep-is_wanted (lower search) stage_filter queue.done_jobs,
  )
