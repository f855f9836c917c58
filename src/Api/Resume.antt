-- ===== src/Api/Resume.antt =====
-- The endpoints against the engine and the database: a submission that resumes a run, and the job
-- that is read from its row.
use stock_tracker_data_colle.Base.{
  ℕ, ◌+◌, String, ◌≡◌, refl, true, not, ◌&&◌, ◌||◌, Option, none, some, arith, contains, first,
  first-passes, first-update_where, lookup, inl, inr, Option-cases,
}
use stock_tracker_data_colle.Errors.{Exn}
use stock_tracker_data_colle.Exec.{ok, is_ok}
use stock_tracker_data_colle.Control.Schema.{PipelineRun}
use stock_tracker_data_colle.Control.Store.{
  has_id, finished_run, terminal_run_statuses, get_run, finish_run, completed_steps,
}
use stock_tracker_data_colle.Control.Store.Runs.{IsUp}
use stock_tracker_data_colle.Engine.{is_running, load_completed}
use stock_tracker_data_colle.Jobs
use stock_tracker_data_colle.Jobs.{JobStatus, submit, running}
use stock_tracker_data_colle.Api.{
  App, check_previous, check_resume, submit_pipeline, get_pipeline_job, parse_status, status_values,
}

known_status :
    (status : String)
    → contains status terminal_run_statuses ≡ true
    → (s : JobStatus) × (lookup status status_values ≡ some s)
known_status status known = elim (Option-cases (lookup status status_values)) [
  | inl unknown ↦ ground arith
  | inr found ↦ found
]

module _ {S : Type 0} (fault : ℕ → Option Exn) (a : App S) (durable : a.world.durable ≡ true)
    (up : IsUp fault a.world.database) where
  -- The endpoint lets a run be resumed exactly if the engine does.
  check_resume-load_completed :
      (name resume_from : String)
      → is_ok (check_resume fault name (some resume_from) a).0
        ≡ is_ok (load_completed fault name (some resume_from) a.world).0
  unfolding check_resume check_previous load_completed get_run completed_steps
  check_resume-load_completed name resume_from =
      elim (Option-cases (first (has_id resume_from) a.world.database.pipeline_runs)) [
        | inl absent ↦ ground (arith, durable, up.open_pool, up.answers a.world.database.queries)
        | inr (row, found) ↦ ground (
          arith,
          durable,
          up.open_pool,
          up.answers a.world.database.queries,
          up.answers (a.world.database.queries + 1),
        )
      ]

  -- On a durable control plane that answers, a request to resume a run is accepted exactly if the
  -- engine would load that run's completed steps for the pipeline, and neither a job of the pipeline
  -- is unfinished nor a run of it is in progress.
  pub submit_pipeline-load_completed :
      (name resume_from job_id : String) (now : ℕ)
      → is_ok (submit_pipeline fault name (some resume_from) job_id now a).0 ≡ (
          is_ok (load_completed fault name (some resume_from) a.world).0
          && not (contains name a.jobs.pending_pipelines || is_running name a.world))
  unfolding submit_pipeline submit check_resume get_run is_running
  submit_pipeline-load_completed name resume_from job_id now = ground (
    arith,
    durable,
    up.open_pool,
    up.answers a.world.database.queries,
    check_resume-load_completed name resume_from,
  )

  -- On a control plane that is up, when a run whose job has left the registry has its row finished
  -- with a terminal status, the endpoint of jobs then serves the row, with a JobStatus of that
  -- text, the error that was written, the database's time of writing as its end, and the
  -- identifier, the pipeline and the other times of the row.
  pub get_pipeline_job-finish_run :
      (run_id status : String) (error : Option String) (row : PipelineRun)
      → Jobs.get run_id a.jobs ≡ none
      → first (has_id run_id) a.world.database.pipeline_runs ≡ some row
      → contains status terminal_run_statuses ≡ true
      → (s : JobStatus) × (lookup status status_values ≡ some s)
        × (let after = (finish_run fault run_id status error a.world.database).1 in
            (get_pipeline_job fault run_id
              (record a { world = record a.world { database = after } })).0
            ≡ ok (record {
              id = row.id;
              pipeline = row.pipeline;
              status = s;
              submitted_at = row.submitted_at;
              started_at = row.started_at;
              finished_at = some a.world.database.clock;
              error = error;
            }))
  unfolding get_pipeline_job finish_run get_run parse_status
  get_pipeline_job-finish_run run_id status error row gone found known =
      let (s, read) = known_status status known in
      (
        s,
        read,
        (ground (
          arith,
          durable,
          gone,
          found,
          read,
          up.open_pool,
          up.answers a.world.database.queries,
          up.answers (a.world.database.queries + 1),
          first-update_where (has_id run_id) (has_id run_id)
              (finished_run a.world.database.clock status error) (λ r. refl)
              a.world.database.pipeline_runs,
          first-passes (has_id run_id) a.world.database.pipeline_runs row found,
        )),
      )
