-- ===== src/Jobs.antt =====
-- app/engine/job_registry.py: JobRegistry. The coroutine `_run` awaits the engine once, so it is
-- two steps of the registry: `begin_job` before the await and `finish_job` after it.
pub mod Prune
mod Active
pub mod Invariant
mod Tracked
pub mod Shutdown
use stock_tracker_data_colle.Base.{
  ℕ, ◌-◌, String, Bool, true, false, not, ◌&&◌, ◌||◌, Option, none, some, List, [], ◌∷◌, ltb, ◌==◌,
  if◌then◌else◌, is_some, contains, discard, format, length, take, lookup, insert,
}
use stock_tracker_data_colle.Errors.{
  Exn, pipeline_busy_error, value_error, cancelled_error, system_exit, message,
}
use stock_tracker_data_colle.Exec.{Outcome, ok, raised, Exec}

pub data JobStatus : Type 0 where
  pending running completed failed cancelled abandoned : JobStatus

pub record PipelineJob : Type 0 where
  pub id : String
  pub pipeline : String
  pub status : JobStatus
  pub submitted_at : ℕ
  pub started_at : Option ℕ
  pub finished_at : Option ℕ
  pub error : Option String

pub record JobRegistry : Type 0 where
  pub max_retained_jobs : ℕ
  pub jobs : List (String × PipelineJob)
  -- the tasks that are not done, each named by its job
  pub tasks : List String
  pub pending_pipelines : List String

-- __init__
unfoldable pub init : ℕ → Outcome JobRegistry
init max_retained_jobs =
    if ltb max_retained_jobs 1
    then raised (value_error "max_retained_jobs must be at least 1")
    else ok (record {
      max_retained_jobs = max_retained_jobs;
      jobs = [];
      tasks = [];
      pending_pipelines = [];
    })

abbrev pub new_job : String → String → ℕ → PipelineJob
new_job job_id pipeline now = record {
  id = job_id;
  pipeline = pipeline;
  status = pending;
  submitted_at = now;
  started_at = none;
  finished_at = none;
  error = none;
}

-- submit: `is_running` is what PipelineEngine.is_running answers, `job_id` what uuid4() returns.
unfoldable pub submit : Bool → String → ℕ → String → Exec JobRegistry PipelineJob
submit is_running job_id now pipeline r =
    if contains pipeline r.pending_pipelines || is_running
    then (
      raised (
          pipeline_busy_error
            (format ("Pipeline " ∷ pipeline ∷ " is already queued or running" ∷ []))),
      r,
    )
    else (
      ok (new_job job_id pipeline now),
      record r {
        jobs = insert job_id (new_job job_id pipeline now) r.jobs;
        pending_pipelines =
            if contains pipeline r.pending_pipelines
            then r.pending_pipelines
            else pipeline ∷ r.pending_pipelines;
        tasks = job_id ∷ r.tasks;
      },
    )

unfoldable pub get : String → JobRegistry → Option PipelineJob
get job_id r = lookup job_id r.jobs

abbrev pub is_finished : PipelineJob → Bool
is_finished job = is_some job.finished_at

-- [job_id for job_id, job in self._jobs.items() if job.finished_at is not None]
abbrev pub terminal_job_ids : List (String × PipelineJob) → List String
terminal_job_ids [] = []
terminal_job_ids ((job_id, job) ∷ jobs) =
    let rest = terminal_job_ids jobs in if is_finished job then job_id ∷ rest else rest

-- self._jobs.pop(job_id, None)
abbrev pub pop : String → List (String × PipelineJob) → List (String × PipelineJob)
pop job_id [] = []
pop job_id ((i, job) ∷ jobs) = if i == job_id then jobs else (i, job) ∷ pop job_id jobs

abbrev pub pop_all : List String → List (String × PipelineJob) → List (String × PipelineJob)
pop_all [] jobs = jobs
pop_all (job_id ∷ job_ids) jobs = pop_all job_ids (pop job_id jobs)

-- _prune_terminal_jobs: `max(0, excess)` is the truncated difference.
unfoldable pub prune_terminal_jobs : JobRegistry → JobRegistry
prune_terminal_jobs r = record r {
  jobs =
      pop_all
        (take (length (terminal_job_ids r.jobs) - r.max_retained_jobs) (terminal_job_ids r.jobs))
        r.jobs;
}

-- _run, up to the await
unfoldable pub begin_job : ℕ → PipelineJob → JobRegistry → JobRegistry
begin_job now job r = record r {
  jobs = insert job.id (record job { status = running; started_at = some now }) r.jobs;
}

-- the `else`, `except` and `finally` of `_run` on the job
abbrev pub settled_job : ℕ → Outcome (Unit {0}) → PipelineJob → PipelineJob
settled_job now (ok u) job = record job { status = completed; finished_at = some now }
settled_job now (raised cancelled_error) job = record job {
  status = cancelled;
  error = some "pipeline task cancelled";
  finished_at = some now;
}
settled_job now (raised (system_exit m)) job = record job { finished_at = some now }
settled_job now (raised e) job = record job {
  status = failed;
  error = some (message e);
  finished_at = some now;
}

-- _run, from the await on; the task is done and leaves the set of tasks
unfoldable pub finish_job : ℕ → Outcome (Unit {0}) → PipelineJob → JobRegistry → JobRegistry
finish_job now outcome job r =
    let settled : JobRegistry = record r {
      jobs = insert job.id (settled_job now outcome job) r.jobs;
      pending_pipelines = discard job.pipeline r.pending_pipelines;
      tasks = discard job.id r.tasks;
    } in
    prune_terminal_jobs settled

-- A task that is cancelled: one that awaits the engine ends as the engine then ends, `ends` of its
-- job. One that has not begun never enters `_run`, and nothing settles its job.
unfoldable pub cancel_task : ℕ → (String → Outcome (Unit {0})) → String → JobRegistry → JobRegistry
cancel_task now ends job_id r =
    let done : JobRegistry = record r { tasks = discard job_id r.tasks } in
    elim (lookup job_id r.jobs) [
      | none ↦ done
      | some job ↦
          if is_some job.started_at && not (is_finished job)
          then finish_job now (ends job_id) job r
          else done
    ]

unfoldable pub cancel_tasks :
    ℕ → (String → Outcome (Unit {0})) → List String → JobRegistry → JobRegistry
cancel_tasks now ends [] r = r
cancel_tasks now ends (job_id ∷ job_ids) r =
    cancel_tasks now ends job_ids (cancel_task now ends job_id r)

-- shutdown: every task is cancelled, and awaited
unfoldable pub shutdown : ℕ → (String → Outcome (Unit {0})) → JobRegistry → JobRegistry
shutdown now ends r = cancel_tasks now ends r.tasks r
