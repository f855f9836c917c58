-- ===== src/Jobs/Shutdown.antt =====
-- What the shutdown of the registry leaves: the tasks end, and the jobs that have not begun stay.
use stock_tracker_data_colle.Base.{
  ℕ, ◌-◌, length, String, ◌≡◌, refl, sym, ap, ◌∙◌, subst, Bool, true, false, not, ◌&&◌, Option,
  none, some, List, [], ◌∷◌, arith, ◌==◌, eq_iff, eq_refl, is_some, All, contains, discard, lookup,
  insert, select, inl, inr, Bool-cases, Option-cases,
}
use stock_tracker_data_colle.Exec.{Outcome, ok}
use stock_tracker_data_colle.Jobs.{
  PipelineJob, JobRegistry, is_finished, init, finish_job, settled_job, prune_terminal_jobs,
  cancel_task, cancel_tasks, shutdown, terminal_job_ids,
}
use stock_tracker_data_colle.Jobs.Prune.{
  keys, Distinct, unfinished, pop_all-take, prune_terminal_jobs_effect,
}
use stock_tracker_data_colle.Jobs.Active.{keys-insert_old}
use stock_tracker_data_colle.Jobs.Invariant.{
  IsConsistent, Reach, init-Reach-IsConsistent, finish_job-IsConsistent, settled_job-finished,
}
use stock_tracker_data_colle.Jobs.Tracked.{
  IsKeyed, found-IsKeyed, Reach-IsTracked, settled_job-id, All-insert, All-drop_finished, HasTask,
}

abbrev pub has_begun : PipelineJob → Bool
has_begun job = is_some job.started_at

-- The unfinished jobs, when a job is finished, and when one that is not there or has not begun is
-- passed over.
module _ (id : String) where
  abbrev goes_on : String × PipelineJob → Bool
  goes_on (i, job) = not (i == id && has_begun job)

  abbrev idle : Option PipelineJob → Bool
  idle none = true
  idle (some job) = not (has_begun job && not (is_finished job))

  unfinished-absent :
      (jobs : List (String × PipelineJob))
      → contains id (keys jobs) ≡ false
      → select goes_on (unfinished jobs) ≡ unfinished jobs
  unfinished-absent [] a = refl
  unfinished-absent ((i, j) ∷ jobs) a = ground (arith, unfinished-absent jobs)

  unfinished-idle :
      (jobs : List (String × PipelineJob))
      → Distinct (keys jobs)
      → idle (lookup id jobs) ≡ true
      → unfinished jobs ≡ select goes_on (unfinished jobs)
  unfinished-idle [] d h = refl
  unfinished-idle ((i, j) ∷ jobs) d h =
      ground (arith, unfinished-idle jobs, unfinished-absent jobs, eq_iff i id, eq_iff id i)

  unfinished-insert :
      (job job' : PipelineJob) (jobs : List (String × PipelineJob))
      → Distinct (keys jobs)
      → lookup id jobs ≡ some job
      → has_begun job ≡ true
      → is_finished job' ≡ true
      → unfinished (insert id job' jobs) ≡ select goes_on (unfinished jobs)
  unfinished-insert job job' [] d found b f = cc
  unfinished-insert job job' ((i, j) ∷ jobs) d found b f =
      ground
        (arith, unfinished-insert job job' jobs, unfinished-absent jobs, eq_iff i id, eq_iff id i)

module _ (now : ℕ) (ends : String → Outcome (Unit {0})) where
  -- What a cancelled task leaves of the registry.
  record Cancelled (id : String) (r after : JobRegistry) : Type 0 where
    consistent : IsConsistent after
    keyed : All IsKeyed after.jobs
    left : unfinished after.jobs ≡ select (goes_on id) (unfinished r.jobs)
    tasks_left : after.tasks ≡ discard id r.tasks

  finish_job-unfinished :
      (outcome : Outcome (Unit {0})) (job : PipelineJob) (r : JobRegistry)
      → IsConsistent r
      → lookup job.id r.jobs ≡ some job
      → has_begun job ≡ true
      → (unfinished (finish_job now outcome job r).jobs
          ≡ select (goes_on job.id) (unfinished r.jobs))
        × ((finish_job now outcome job r).tasks ≡ discard job.id r.tasks)
  unfolding finish_job
  finish_job-unfinished outcome job r v found begun =
      let job' = settled_job now outcome job in
      let settled : JobRegistry = record r {
        jobs = insert job.id job' r.jobs;
        pending_pipelines = discard job.pipeline r.pending_pipelines;
        tasks = discard job.id r.tasks;
      } in
      let distinct : Distinct (keys settled.jobs) =
        rw (keys-insert_old job.id job job' r.jobs found) v.distinct in
      (
        (prune_terminal_jobs_effect settled distinct).0
            ∙ unfinished-insert job.id job job' r.jobs v.distinct found begun
                (settled_job-finished now outcome job),
        unfold prune_terminal_jobs in refl,
      )

  passed_over :
      (id : String) (r : JobRegistry)
      → IsConsistent r
      → All IsKeyed r.jobs
      → idle id (lookup id r.jobs) ≡ true
      → Cancelled id r (record r { tasks = discard id r.tasks })
  passed_over id r v k at_rest = record {
    consistent = record {
      distinct = v.distinct;
      single = v.single;
      marked = v.marked;
      bounded = v.bounded;
    };
    keyed = k;
    left = unfinished-idle id r.jobs v.distinct at_rest;
    tasks_left = refl;
  }

  finish_job-AreKeyed :
      (outcome : Outcome (Unit {0})) (job : PipelineJob) (r : JobRegistry)
      → IsConsistent r
      → lookup job.id r.jobs ≡ some job
      → All IsKeyed r.jobs
      → All IsKeyed (finish_job now outcome job r).jobs
  unfolding finish_job prune_terminal_jobs
  finish_job-AreKeyed outcome job r v found k =
      let job' = settled_job now outcome job in
      let jobs = insert job.id job' r.jobs in
      let n = length (terminal_job_ids jobs) - r.max_retained_jobs in
      rw (pop_all-take n jobs (rw (keys-insert_old job.id job job' r.jobs found) v.distinct)) (
        All-drop_finished IsKeyed n jobs
          (All-insert IsKeyed job.id job' r.jobs (settled_job-id now outcome job) k))

  ended :
      (id : String) (outcome : Outcome (Unit {0})) (job : PipelineJob) (r : JobRegistry)
      → job.id ≡ id
      → lookup id r.jobs ≡ some job
      → has_begun job ≡ true
      → is_finished job ≡ false
      → IsConsistent r
      → All IsKeyed r.jobs
      → Cancelled id r (finish_job now outcome job r)
  ended id outcome job r named found begun open_job v k =
      let at_id : lookup job.id r.jobs ≡ some job =
        subst (λ i. lookup i r.jobs ≡ some job) (sym named) found in
      let (left, tasks) = finish_job-unfinished outcome job r v at_id begun in
      record {
        consistent = finish_job-IsConsistent now outcome job r at_id open_job v;
        keyed = finish_job-AreKeyed outcome job r v at_id k;
        left =
            subst
              (λ i.
                unfinished (finish_job now outcome job r).jobs
                ≡ select (goes_on i) (unfinished r.jobs))
              named left;
        tasks_left =
            subst (λ i. (finish_job now outcome job r).tasks ≡ discard i r.tasks) named tasks;
      }

  cancelled :
      (id : String) (r : JobRegistry)
      → IsConsistent r
      → All IsKeyed r.jobs
      → Cancelled id r (cancel_task now ends id r)
  unfolding cancel_task
  cancelled id r v k = elim (Option-cases (lookup id r.jobs)) [
    | inl absent ↦ rw (absent, cancel_task) (passed_over id r v k (rw absent refl))
    | inr (job, found) ↦
        rw (found, cancel_task)
          (elim (Bool-cases (has_begun job && not (is_finished job))) [
            | inr rests ↦ rw rests (passed_over id r v k (rw found (rw rests refl)))
            | inl runs ↦ rw runs (
                ended id (ends id) job r (found-IsKeyed id job r.jobs k found) found
                  (ground (arith, runs)) (ground (arith, runs)) v k)
          ])
  ]

-- a job that has not begun
abbrev pub waits_still : String × PipelineJob → Bool
waits_still (i, job) = not (has_begun job)

abbrev survives : List String → String × PipelineJob → Bool
survives ids (i, job) = not (contains i ids && has_begun job)

abbrev discard_all : List String → List String → List String
discard_all [] tasks = tasks
discard_all (id ∷ ids) tasks = discard_all ids (discard id tasks)

survives-nil : (jobs : List (String × PipelineJob)) → jobs ≡ select (survives []) jobs
survives-nil [] = refl
survives-nil ((i, j) ∷ jobs) = ap (λ l. (i, j) ∷ l) (survives-nil jobs)

survives-cons :
    (id : String) (ids : List String) (jobs : List (String × PipelineJob))
    → select (survives ids) (select (goes_on id) jobs) ≡ select (survives (id ∷ ids)) jobs
survives-cons id ids [] = refl
survives-cons id ids ((i, j) ∷ jobs) =
    ground (arith, survives-cons id ids jobs, eq_iff i id, eq_iff id i)

survives-tasks :
    (tasks : List String) (jobs : List (String × PipelineJob))
    → All (HasTask tasks) jobs
    → select (survives tasks) (unfinished jobs) ≡ select waits_still (unfinished jobs)
survives-tasks tasks [] h = refl
survives-tasks tasks ((i, j) ∷ jobs) h = ground (arith, survives-tasks tasks jobs)

abbrev IsWithin : List String → List String → Type 0
IsWithin ids tasks = All (λ task. contains task ids ≡ true) tasks

IsWithin-discard :
    (id : String) (ids tasks : List String)
    → IsWithin (id ∷ ids) tasks
    → IsWithin ids (discard id tasks)
IsWithin-discard id ids [] h = tt
IsWithin-discard id ids (task ∷ tasks) h =
    ground (arith, IsWithin-discard id ids tasks, eq_iff task id, eq_iff id task)

discard_all-nil : (ids tasks : List String) → IsWithin ids tasks → discard_all ids tasks ≡ []
discard_all-nil [] [] h = refl
discard_all-nil [] (task ∷ tasks) h = absurd (ground arith)
discard_all-nil (id ∷ ids) tasks h =
    discard_all-nil ids (discard id tasks) (IsWithin-discard id ids tasks h)

IsWithin-cons :
    (id : String) (ids tasks : List String) → IsWithin ids tasks → IsWithin (id ∷ ids) tasks
IsWithin-cons id ids [] h = tt
IsWithin-cons id ids (task ∷ tasks) h = ground (arith, IsWithin-cons id ids tasks)

IsWithin-refl : (ids : List String) → IsWithin ids ids
IsWithin-refl [] = tt
IsWithin-refl (id ∷ ids) =
    (ground (arith, eq_refl id), IsWithin-cons id ids ids (IsWithin-refl ids))

module _ (now : ℕ) (ends : String → Outcome (Unit {0})) where
  cancel_tasks_effect :
      (ids : List String) (r : JobRegistry)
      → IsConsistent r
      → All IsKeyed r.jobs
      → let after = cancel_tasks now ends ids r in
        IsConsistent after
        × (unfinished after.jobs ≡ select (survives ids) (unfinished r.jobs))
        × (after.tasks ≡ discard_all ids r.tasks)
  unfolding cancel_tasks
  cancel_tasks_effect [] r v k = (v, survives-nil (unfinished r.jobs), refl)
  cancel_tasks_effect (id ∷ ids) r v k =
      let one = cancelled now ends id r v k in
      let (consistent, left, tasks) =
        cancel_tasks_effect ids (cancel_task now ends id r) one.consistent one.keyed in
      (
        consistent,
        left ∙ ap (select (survives ids)) one.left ∙ survives-cons id ids (unfinished r.jobs),
        tasks ∙ ap (discard_all ids) one.tasks_left,
      )

  -- Whatever jobs were submitted, started and ended, and however the engine ends the jobs that are
  -- cancelled: after the shutdown no task is left, the registry is consistent, and its unfinished
  -- jobs are exactly those that had not begun, unchanged and in their order.
  pub shutdown_effect :
      (max_retained_jobs : ℕ) (start r : JobRegistry)
      → init max_retained_jobs ≡ ok start
      → Reach start r
      → let after = shutdown now ends r in
        (after.tasks ≡ [])
        × IsConsistent after
        × (unfinished after.jobs ≡ select waits_still (unfinished r.jobs))
  unfolding shutdown
  shutdown_effect max_retained_jobs start r made reach =
      let t = Reach-IsTracked max_retained_jobs start made reach in
      let v = init-Reach-IsConsistent max_retained_jobs start r made reach in
      let (consistent, left, tasks) = cancel_tasks_effect r.tasks r v t.keyed in
      (
        tasks ∙ discard_all-nil r.tasks r.tasks (IsWithin-refl r.tasks),
        consistent,
        left ∙ survives-tasks r.tasks r.jobs t.tracked,
      )
