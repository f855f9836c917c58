-- ===== src/Jobs/Tracked.antt =====
-- The tasks of the registry and its unfinished jobs, through submissions and steps of tasks.
use stock_tracker_data_colle.Base.{
  ℕ, zero, suc, ◌-◌, length, String, ◌≡◌, refl, sym, subst, Bool, true, false, ◌||◌, some, List, [],
  ◌∷◌, arith, ◌==◌, eq_iff, eq_refl, All, contains, discard, contains-discard, lookup, insert, inl,
  inr, Bool-cases,
}
use stock_tracker_data_colle.Errors.{Exn}
use stock_tracker_data_colle.Exec.{Outcome, ok, raised}
use stock_tracker_data_colle.Jobs.{
  PipelineJob, JobRegistry, is_finished, init, submit, begin_job, finish_job, settled_job, new_job,
  prune_terminal_jobs, terminal_job_ids,
}
use stock_tracker_data_colle.Jobs.Prune.{keys, Distinct, drop_finished, pop_all-take}
use stock_tracker_data_colle.Jobs.Active.{keys-insert_old}
use stock_tracker_data_colle.Jobs.Invariant.{
  IsConsistent, Reach, here, next, Step, submits, begins, finishes, init-Reach-IsConsistent,
  settled_job-finished,
}

abbrev pub IsKeyed : String × PipelineJob → Type 0
IsKeyed (i, job) = job.id ≡ i

abbrev pub HasTask : List String → String × PipelineJob → Type 0
HasTask tasks (i, job) = (is_finished job || contains i tasks) ≡ true

pub All-insert :
    (P : String × PipelineJob → Type 0) (id : String) (job : PipelineJob)
    (jobs : List (String × PipelineJob))
    → P (id, job)
    → All P jobs
    → All P (insert id job jobs)
All-insert P id job [] p h = (p, tt)
All-insert P id job ((i, j) ∷ jobs) p (h, hs) = elim (Bool-cases (i == id)) [
  | inl same ↦ rw same (subst (λ k. P (k, job)) (sym ((eq_iff i id).0 same)) p, hs)
  | inr other ↦ rw other (h, All-insert P id job jobs p hs)
]

pub All-drop_finished :
    (P : String × PipelineJob → Type 0) (n : ℕ) (jobs : List (String × PipelineJob))
    → All P jobs
    → All P (drop_finished n jobs)
All-drop_finished P zero [] h = tt
All-drop_finished P (suc n) [] h = tt
All-drop_finished P zero (entry ∷ jobs) h = h
All-drop_finished P (suc n) ((i, job) ∷ jobs) (h, hs) = elim (Bool-cases (is_finished job)) [
  | inl done ↦ rw done (All-drop_finished P n jobs hs)
  | inr waits ↦ rw waits (h, All-drop_finished P (suc n) jobs hs)
]

-- A job that is finished needs its task no more.
module _ (id : String) (tasks : List String) where
  HasTask-absent :
      (jobs : List (String × PipelineJob))
      → contains id (keys jobs) ≡ false
      → All (HasTask tasks) jobs
      → All (HasTask (discard id tasks)) jobs
  HasTask-absent [] a h = tt
  HasTask-absent ((i, j) ∷ jobs) a h =
      ground (arith, HasTask-absent jobs, contains-discard id i tasks, eq_iff i id, eq_iff id i)

  HasTask-finished :
      (job : PipelineJob) (jobs : List (String × PipelineJob))
      → is_finished job ≡ true
      → Distinct (keys jobs)
      → All (HasTask tasks) jobs
      → All (HasTask (discard id tasks)) (insert id job jobs)
  HasTask-finished job [] f d h = ground arith
  HasTask-finished job ((i, j) ∷ jobs) f d h = ground (
    arith,
    HasTask-finished job jobs,
    HasTask-absent jobs,
    contains-discard id i tasks,
    eq_iff i id,
    eq_iff id i,
  )

-- The keys are the identifiers, and every unfinished job has its task.
pub record IsTracked (r : JobRegistry) : Type 0 where
  pub keyed : All IsKeyed r.jobs
  pub tracked : All (HasTask r.tasks) r.jobs

pub found-IsKeyed :
    (k : String) (job : PipelineJob) (jobs : List (String × PipelineJob))
    → All IsKeyed jobs
    → lookup k jobs ≡ some job
    → job.id ≡ k
found-IsKeyed k job [] h found = cc
found-IsKeyed k job ((i, j) ∷ jobs) (h, hs) found =
    ground (arith, found-IsKeyed k job jobs, eq_iff i k)

HasTask-added :
    (id : String) (tasks : List String) (jobs : List (String × PipelineJob))
    → All (HasTask tasks) jobs
    → All (HasTask (id ∷ tasks)) jobs
HasTask-added id tasks [] h = tt
HasTask-added id tasks ((i, j) ∷ jobs) (h, hs) = (ground arith, HasTask-added id tasks jobs hs)

pub settled_job-id :
    (now : ℕ) (outcome : Outcome (Unit {0})) (job : PipelineJob)
    → (settled_job now outcome job).id ≡ job.id
settled_job-id now (ok u) job = refl
settled_job-id now (raised Exn.cancelled_error) job = refl
settled_job-id now (raised e) job = refl

submit-IsTracked :
    (is_running : Bool) (job_id : String) (now : ℕ) (pipeline : String) (r : JobRegistry)
    → IsTracked r
    → IsTracked (submit is_running job_id now pipeline r).1
unfolding submit
submit-IsTracked is_running job_id now pipeline r t =
    elim (Bool-cases (contains pipeline r.pending_pipelines || is_running)) [
      | inl refused ↦ rw refused t
      | inr accepted ↦ rw accepted (record {
        keyed = All-insert IsKeyed job_id (new_job job_id pipeline now) r.jobs refl t.keyed;
        tracked =
            All-insert (HasTask (job_id ∷ r.tasks)) job_id (new_job job_id pipeline now) r.jobs
              (ground (arith, eq_refl job_id)) (HasTask-added job_id r.tasks r.jobs t.tracked);
      })
    ]

-- the task that a job which is found and not finished has
pub task_of :
    (k : String) (job : PipelineJob) (tasks : List String) (jobs : List (String × PipelineJob))
    → All (HasTask tasks) jobs
    → lookup k jobs ≡ some job
    → is_finished job ≡ false
    → contains k tasks ≡ true
task_of k job tasks [] h found open_job = cc
task_of k job tasks ((i, j) ∷ jobs) h found open_job =
    ground (arith, task_of k job tasks jobs, eq_iff i k)

begin_job-IsTracked :
    (now : ℕ) (job : PipelineJob) (r : JobRegistry)
    → lookup job.id r.jobs ≡ some job
    → is_finished job ≡ false
    → IsTracked r
    → IsTracked (begin_job now job r)
unfolding begin_job
begin_job-IsTracked now job r found open_job t = record {
  keyed = All-insert IsKeyed job.id _ r.jobs refl t.keyed;
  tracked =
      All-insert (HasTask r.tasks) job.id _ r.jobs
        (ground (arith, task_of job.id job r.tasks r.jobs t.tracked found open_job)) t.tracked;
}

prune-IsTracked :
    (r : JobRegistry) → Distinct (keys r.jobs) → IsTracked r → IsTracked (prune_terminal_jobs r)
unfolding prune_terminal_jobs
prune-IsTracked r distinct t =
    let n = length (terminal_job_ids r.jobs) - r.max_retained_jobs in
    let pruned = pop_all-take n r.jobs distinct in
    record {
      keyed = rw pruned (All-drop_finished IsKeyed n r.jobs t.keyed);
      tracked = rw pruned (All-drop_finished (HasTask r.tasks) n r.jobs t.tracked);
    }

pub finish_job-IsTracked :
    (now : ℕ) (outcome : Outcome (Unit {0})) (job : PipelineJob) (r : JobRegistry)
    → lookup job.id r.jobs ≡ some job
    → Distinct (keys r.jobs)
    → IsTracked r
    → IsTracked (finish_job now outcome job r)
unfolding finish_job
finish_job-IsTracked now outcome job r found distinct t =
    let job' = settled_job now outcome job in
    prune-IsTracked _ (rw (keys-insert_old job.id job job' r.jobs found) distinct) (record {
      keyed = All-insert IsKeyed job.id job' r.jobs (settled_job-id now outcome job) t.keyed;
      tracked =
          HasTask-finished job.id r.tasks job' r.jobs (settled_job-finished now outcome job)
            distinct t.tracked;
    })

Step-IsTracked : {r s : JobRegistry} → Step r s → IsConsistent r → IsTracked r → IsTracked s
Step-IsTracked {r} (submits is_running job_id now pipeline fresh) v t =
    submit-IsTracked is_running job_id now pipeline r t
Step-IsTracked {r} (begins now job found open_job) v t =
    begin_job-IsTracked now job r found open_job t
Step-IsTracked {r} (finishes now outcome job found open_job) v t =
    finish_job-IsTracked now outcome job r found v.distinct t

module _ (max_retained_jobs : ℕ) (start : JobRegistry)
    (made : init max_retained_jobs ≡ ok start) where
  init-IsTracked : IsTracked start
  unfolding init
  init-IsTracked =
      let e : start ≡ record {
        max_retained_jobs = max_retained_jobs;
        jobs = [];
        tasks = [];
        pending_pipelines = [];
      } =
        ground arith in
      rw e (record { keyed = tt; tracked = tt })

  pub Reach-IsTracked : {r : JobRegistry} → Reach start r → IsTracked r
  Reach-IsTracked here = init-IsTracked
  Reach-IsTracked (next {s = s} reach step) =
      Step-IsTracked step (init-Reach-IsConsistent max_retained_jobs start s made reach)
        (Reach-IsTracked reach)
