-- ===== src/Jobs/Invariant.antt =====
-- The registry as a state machine: what holds of it after any submissions and task steps.
use stock_tracker_data_colle.Base.{
  ℕ, ◌-◌, ◌≤◌, String, ◌≡◌, refl, Bool, true, false, none, some, List, [], ◌∷◌, arith, eq_refl,
  if◌then◌else◌, contains, contains-discard, length, lookup, ◌||◌, ◌∙◌, sym, not, lookup-insert,
}
use stock_tracker_data_colle.Errors.{Exn}
use stock_tracker_data_colle.Exec.{Outcome, ok, raised, is_ok}
use stock_tracker_data_colle.Jobs
use stock_tracker_data_colle.Jobs.{
  PipelineJob, JobRegistry, is_finished, terminal_job_ids, init, submit, begin_job, finish_job,
  settled_job, new_job, prune_terminal_jobs, get,
}
use stock_tracker_data_colle.Jobs.Prune.{
  keys, Distinct, finished, pop_all-take, prune_terminal_jobs_effect,
}
use stock_tracker_data_colle.Jobs.Active.{
  active, OnePerPipeline, Distinct-insert_new, active-insert_new, OnePerPipeline-insert_new,
  finished-insert_new, keys-insert_old, active-insert_same, OnePerPipeline-insert_same,
  finished-insert_same, active-insert_finished, OnePerPipeline-insert_finished,
  active-drop_finished, OnePerPipeline-drop_finished, Distinct-drop_finished,
}

pub record IsConsistent (r : JobRegistry) : Type 0 where
  -- a job identifier names one job
  pub distinct : Distinct (keys r.jobs)
  -- a pipeline has at most one job that is not finished
  pub single : OnePerPipeline r.jobs
  -- the pending pipelines are those of the unfinished jobs
  pub marked : (p : String) → contains p r.pending_pipelines ≡ active p r.jobs
  -- the history is bounded
  pub bounded : length (finished r.jobs) ≤ r.max_retained_jobs

-- One step: a submission with an identifier that is new, the start of a task, or its end.
pub data Step (r : JobRegistry) : JobRegistry → Type 0 where
  submits :
      (is_running : Bool) (job_id : String) (now : ℕ) (pipeline : String)
      → contains job_id (keys r.jobs) ≡ false
      → Step r (submit is_running job_id now pipeline r).1
  begins :
      (now : ℕ) (job : PipelineJob)
      → lookup job.id r.jobs ≡ some job
      → is_finished job ≡ false
      → Step r (begin_job now job r)
  finishes :
      (now : ℕ) (outcome : Outcome (Unit {0})) (job : PipelineJob)
      → lookup job.id r.jobs ≡ some job
      → is_finished job ≡ false
      → Step r (finish_job now outcome job r)

pub data Reach (r : JobRegistry) : JobRegistry → Type 0 where
  here : Reach r r
  next : {s t : JobRegistry} → Reach r s → Step s t → Reach r t

submit-IsConsistent :
    (is_running : Bool) (job_id : String) (now : ℕ) (pipeline : String) (r : JobRegistry)
    → contains job_id (keys r.jobs) ≡ false
    → IsConsistent r
    → IsConsistent (submit is_running job_id now pipeline r).1
unfolding submit
submit-IsConsistent is_running job_id now pipeline r fresh v =
    let job = new_job job_id pipeline now in
    record {
      distinct = ground (arith, v.distinct, Distinct-insert_new job_id job r.jobs fresh v.distinct);
      single =
          ground
            (arith, v.single, v.marked pipeline, OnePerPipeline-insert_new job_id job r.jobs fresh);
      marked = λ p.
          ground
            (arith, v.marked p, v.marked pipeline, active-insert_new job_id job p r.jobs fresh);
      bounded = ground (arith, v.bounded, finished-insert_new job_id job r.jobs fresh refl);
    }

begin_job-IsConsistent :
    (now : ℕ) (job : PipelineJob) (r : JobRegistry)
    → lookup job.id r.jobs ≡ some job
    → is_finished job ≡ false
    → IsConsistent r
    → IsConsistent (begin_job now job r)
unfolding begin_job
begin_job-IsConsistent now job r found open_job v =
    let job' = record job { status = Jobs.running; started_at = some now } in
    record {
      distinct = rw (keys-insert_old job.id job job' r.jobs found) v.distinct;
      single = OnePerPipeline-insert_same job.id job job' r.jobs found refl refl v.single;
      marked = λ p. v.marked p ∙ sym (active-insert_same job.id job job' p r.jobs found refl refl);
      bounded = rw (finished-insert_same job.id job job' r.jobs found refl) v.bounded;
    }

prune-IsConsistent :
    (r : JobRegistry)
    → Distinct (keys r.jobs)
    → OnePerPipeline r.jobs
    → ((p : String) → contains p r.pending_pipelines ≡ active p r.jobs)
    → IsConsistent (prune_terminal_jobs r)
unfolding prune_terminal_jobs
prune-IsConsistent r distinct single marked =
    let n = length (terminal_job_ids r.jobs) - r.max_retained_jobs in
    let pruned = pop_all-take n r.jobs distinct in
    record {
      distinct = rw pruned (Distinct-drop_finished n r.jobs distinct);
      single = rw pruned (OnePerPipeline-drop_finished n r.jobs single);
      marked = λ p.
          unfold prune_terminal_jobs in
          rw pruned (marked p ∙ sym (active-drop_finished p n r.jobs));
      bounded = (prune_terminal_jobs_effect r distinct).2;
    }

pub settled_job-finished :
    (now : ℕ) (outcome : Outcome (Unit {0})) (job : PipelineJob)
    → is_finished (settled_job now outcome job) ≡ true
settled_job-finished now (ok u) job = refl
settled_job-finished now (raised Exn.cancelled_error) job = refl
settled_job-finished now (raised e) job = refl

pub finish_job-IsConsistent :
    (now : ℕ) (outcome : Outcome (Unit {0})) (job : PipelineJob) (r : JobRegistry)
    → lookup job.id r.jobs ≡ some job
    → is_finished job ≡ false
    → IsConsistent r
    → IsConsistent (finish_job now outcome job r)
unfolding finish_job
finish_job-IsConsistent now outcome job r found open_job v =
    let job' = settled_job now outcome job in
    let done = settled_job-finished now outcome job in
    prune-IsConsistent _ (rw (keys-insert_old job.id job job' r.jobs found) v.distinct)
      (OnePerPipeline-insert_finished job.id job job' r.jobs found open_job done v.single)
      (λ p.
        contains-discard job.pipeline p r.pending_pipelines
        ∙ (rw (v.marked p)
            (sym (active-insert_finished job.id job job' p r.jobs found open_job done v.single))))

Step-IsConsistent : {r s : JobRegistry} → Step r s → IsConsistent r → IsConsistent s
Step-IsConsistent {r} (submits is_running job_id now pipeline fresh) v =
    submit-IsConsistent is_running job_id now pipeline r fresh v
Step-IsConsistent {r} (begins now job found open_job) v =
    begin_job-IsConsistent now job r found open_job v
Step-IsConsistent {r} (finishes now outcome job found open_job) v =
    finish_job-IsConsistent now outcome job r found open_job v

Reach-IsConsistent : {r s : JobRegistry} → IsConsistent r → Reach r s → IsConsistent s
Reach-IsConsistent v here = v
Reach-IsConsistent v (next reach step) = Step-IsConsistent step (Reach-IsConsistent v reach)

init-IsConsistent :
    (max_retained_jobs : ℕ) (start : JobRegistry)
    → init max_retained_jobs ≡ ok start
    → IsConsistent start
unfolding init
init-IsConsistent max_retained_jobs start made =
    let e : start ≡ record {
      max_retained_jobs = max_retained_jobs;
      jobs = [];
      tasks = [];
      pending_pipelines = [];
    } =
      ground arith in
    rw e (record { distinct = tt; single = tt; marked = λ p. refl; bounded = omega arith })

-- Whatever jobs are submitted, started and ended, the registry that `init` makes keeps identifiers
-- distinct, at most one unfinished job of each pipeline, the pending pipelines equal to those of
-- the unfinished jobs, and at most `max_retained_jobs` finished jobs.
pub init-Reach-IsConsistent :
    (max_retained_jobs : ℕ) (start r : JobRegistry)
    → init max_retained_jobs ≡ ok start
    → Reach start r
    → IsConsistent r
init-Reach-IsConsistent max_retained_jobs start r made reach =
    Reach-IsConsistent (init-IsConsistent max_retained_jobs start made) reach

absent :
    (job_id : String) (jobs : List (String × PipelineJob))
    → contains job_id (keys jobs) ≡ false
    → lookup job_id jobs ≡ none
absent job_id [] h = refl
absent job_id ((i, job) ∷ jobs) h = ground (arith, absent job_id jobs)

-- In a consistent registry a submission with a new identifier is refused exactly if the pipeline
-- has an unfinished job or the engine runs it; a job that is accepted is then found as pending,
-- and one that is refused is not found.
pub submit_decides :
    (is_running : Bool) (job_id : String) (now : ℕ) (pipeline : String) (r : JobRegistry)
    → IsConsistent r
    → contains job_id (keys r.jobs) ≡ false
    → let (outcome, after) = submit is_running job_id now pipeline r in
      (is_ok outcome ≡ not (active pipeline r.jobs || is_running))
      × (get job_id after ≡ (
          if active pipeline r.jobs || is_running
          then none
          else some (new_job job_id pipeline now)))
unfolding submit get
submit_decides is_running job_id now pipeline r v fresh = (
  ground (arith, v.marked pipeline),
  ground (
    arith,
    v.marked pipeline,
    absent job_id r.jobs fresh,
    lookup-insert job_id job_id (new_job job_id pipeline now) r.jobs,
    eq_refl job_id,
  ),
)
