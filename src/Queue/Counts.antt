-- ===== src/Queue/Counts.antt =====
-- The count that the dashboard gives for a stage.
use podlog.Base.{
  ℕ, suc, ◌+◌, ◌≡◌, refl, ap, ◌∙◌, Bool, true, some, List, [], ◌∷◌, ◌++◌, arith, Text, codes,
  text_eq, text_eq→eq, any, if◌then◌else◌, Bool-cases, inl, inr,
}
use podlog.Base.Assoc.{lookup, set_key, lookup-set_key}
use podlog.Queue.{
  Job, QueueState, Stage, stages, Counts, seed, count_jobs, count_or_zero, stage_counts,
  list_or_empty,
}

abbrev pub is_stage : Text → List Stage → Bool
is_stage key = any (λ s. text_eq s.key key)

-- How many of the jobs have the status.
abbrev pub with_status : Text → List Job → ℕ
with_status key [] = 0
with_status key (j ∷ jobs) =
    if text_eq j.status key then suc (with_status key jobs) else with_status key jobs

lookup-seed :
    (key : Text) (ss : List Stage) (counts : Counts)
    → lookup key (seed ss counts) ≡ (if is_stage key ss then some 0 else lookup key counts)
unfolding seed
lookup-seed key [] counts = refl
lookup-seed key (s ∷ ss) counts =
    ground (arith, lookup-seed key ss (set_key s.key 0 counts), lookup-set_key s.key key 0 counts)

lookup-count_jobs :
    (key : Text) (jobs : List Job) (counts : Counts) (n : ℕ)
    → lookup key counts ≡ some n
    → lookup key (count_jobs jobs counts) ≡ some (n + with_status key jobs)
unfolding count_jobs
lookup-count_jobs key [] counts n h = rw h (ap some (omega arith))
lookup-count_jobs key (j ∷ jobs) counts n h = elim (Bool-cases (text_eq j.status key)) [
  | inl e ↦
      let same = text_eq→eq j.status key e in
      let old : lookup j.status counts ≡ some n = ap (λ k. lookup k counts) same ∙ h in
      let next : lookup key (set_key j.status (count_or_zero (lookup j.status counts) + 1) counts)
          ≡ some (n + 1) =
        ground (
          arith,
          lookup-set_key j.status key (count_or_zero (lookup j.status counts) + 1) counts,
          old,
        ) in
      rw e (lookup-count_jobs key jobs _ (n + 1) next ∙ ap some (omega arith))
  | inr e ↦ rw e (
      lookup-count_jobs key jobs _ n (
        ground
          (arith, lookup-set_key j.status key (count_or_zero (lookup j.status counts) + 1) counts)))
]

abbrev pub counted_jobs : QueueState → List Job
counted_jobs queue =
    queue.active_jobs
    ++ (queue.pending_jobs ++ (queue.failed_jobs ++ list_or_empty queue.stuck_jobs))

-- Every stage has a count: under Done the number that the pipeline reports, under any other
-- stage the number of active, pending, failed and stuck jobs with that status.
lookup-stage_counts :
    (queue : QueueState) (key : Text)
    → is_stage key stages ≡ true
    → lookup key (stage_counts queue) ≡ (
        if text_eq (codes "done") key
        then some queue.done_count
        else some (with_status key (counted_jobs queue)))
unfolding stage_counts
lookup-stage_counts queue key h =
    lookup-set_key (codes "done") key queue.done_count _
    ∙ ap (λ o. if text_eq (codes "done") key then some queue.done_count else o)
        (lookup-count_jobs key (counted_jobs queue) (seed stages []) 0
            (lookup-seed key stages [] ∙ rw h refl)
          ∙ ap some (omega arith))
