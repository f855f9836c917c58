-- ===== src/Engine/Outcomes.antt =====
-- What a run reports: its outcome, its row in the database, and its observation in the metrics.
use mathlib.Core.Option
use stock_tracker_data_colle.Base.{
  ℕ, String, ◌≡◌, refl, true, false, Option, none, some, List, [], ◌∷◌, arith, contains,
  if◌then◌else◌, first, first-append, first-update_where, first-passes, exists, format, eq_refl, ap,
  ◌∙◌, inl, inr, Option-cases,
}
use stock_tracker_data_colle.Errors.{
  Exn, pipeline_error, cancelled_error, system_exit, is_pipeline_error, message,
}
use stock_tracker_data_colle.Exec.{Outcome, Exec, ok, raised, after_cleanup, continue}
use stock_tracker_data_colle.Control.Schema.{PipelineRun, Database}
use stock_tracker_data_colle.Control.Store.{
  has_id, finish_run, finished_run, terminal_run_statuses, get_run, completed_steps, refers,
  new_run, start_run,
}
use stock_tracker_data_colle.Control.Store.Constraints.{refers-append}
use stock_tracker_data_colle.Control.Store.Runs.{IsUp}
use stock_tracker_data_colle.Engine.{
  World, Frame, execute, attempt, prepare, load_completed, settle, cleanup, call_pipeline,
  run_context, set_context, initial_frame,
}

-- What `_execute` raises for what the pipeline raised.
abbrev pub reported : String → Outcome (Unit {0}) → Outcome (Unit {0})
reported name (ok u) = ok u
reported name (raised cancelled_error) = raised cancelled_error
reported name (raised (system_exit m)) = raised (system_exit m)
reported name (raised e) = raised (
    if is_pipeline_error e
    then e
    else pipeline_error (format ("Pipeline " ∷ name ∷ " failed: " ∷ message e ∷ [])))

-- The status that the row of the run ends with.
abbrev pub status_of : Outcome (Unit {0}) → String
status_of (ok u) = "completed"
status_of (raised cancelled_error) = "cancelled"
status_of (raised (system_exit m)) = "running"
status_of (raised e) = "failed"

-- The engine is durable, its database answers, and the run has a row that is running.
pub record IsRunning {S : Type 0} (fault : ℕ → Option Exn) (run_id : String) (w : World S)
    : Type 0 where
  pub durable : w.durable ≡ true
  pub up : IsUp fault w.database
  pub row : PipelineRun
  pub has_row : first (has_id run_id) w.database.pipeline_runs ≡ some row
  pub running : row.status ≡ "running"

abbrev pub run_status : {S : Type 0} → String → World S → Option String
run_status run_id w = Option.map (λ r. r.status) (first (has_id run_id) w.database.pipeline_runs)

finish_run_status :
    (fault : ℕ → Option Exn) (d : Database) (run_id status : String) (error : Option String)
    (row : PipelineRun)
    → IsUp fault d
    → first (has_id run_id) d.pipeline_runs ≡ some row
    → contains status terminal_run_statuses ≡ true
    → let (result, after) = finish_run fault run_id status error d in
      (result ≡ ok tt)
      × (Option.map (λ r. r.status) (first (has_id run_id) after.pipeline_runs) ≡ some status)
unfolding finish_run
finish_run_status fault d run_id status error row up found known = rw known (
    ground (
      arith,
      up.open_pool,
      up.answers d.queries,
      first-update_where (has_id run_id) (has_id run_id) (finished_run d.clock status error)
          (λ r. refl) d.pipeline_runs,
      first-passes (has_id run_id) d.pipeline_runs row found,
    ))

module _ {S : Type 0} (fault : ℕ → Option Exn) (name run_id : String) where
  settle_outcome :
      (outcome : Outcome (Unit {0})) (f : Frame S)
      → IsRunning fault run_id f.world
      → let (result, after) = settle fault name run_id outcome f in
        (result ≡ reported name outcome)
        × (run_status run_id after.world ≡ some (status_of outcome))
  unfolding settle
  settle_outcome (ok u) f r = ground (
    arith,
    r.durable,
    finish_run_status fault f.world.database run_id "completed" none r.row r.up r.has_row refl,
  )
  settle_outcome (raised cancelled_error) f r = ground (
    arith,
    r.durable,
    finish_run_status fault f.world.database run_id "cancelled" (some "pipeline task cancelled")
        r.row r.up r.has_row refl,
  )
  settle_outcome (raised (system_exit m)) f r = ground (arith, r.has_row, r.running)
  settle_outcome (raised e) f r = ground (
    arith,
    r.durable,
    finish_run_status fault f.world.database run_id "failed" (some (message e)) r.row r.up r.has_row
        refl,
  )

  -- Loading the completed steps sends queries, and changes nothing else.
  pub load_completed-reads :
      (resume_of : Option String) (w : World S)
      → let after = (load_completed fault name resume_of w).1 in
        after ≡ record w { database = record w.database { queries = after.database.queries } }
  unfolding load_completed get_run completed_steps
  load_completed-reads none w = refl
  load_completed-reads (some previous) w = ground arith

  -- The world in which `_execute` calls the pipeline.
  abbrev called_in : List String → Option String → Frame S → World S
  called_in completed resume_of f =
      (set_context (run_context name run_id resume_of completed) f).world

  prepare_returns :
      (trigger : String) (resume_of : Option String) (completed : List String) (w : World S)
      → w.durable ≡ true
      → IsUp fault w.database
      → exists (has_id run_id) w.database.pipeline_runs ≡ false
      → refers resume_of w.database.pipeline_runs ≡ true
      → (load_completed fault name resume_of w).0 ≡ ok completed
      → let (result, f) = prepare fault name run_id trigger resume_of (initial_frame w) in
        (result ≡ ok completed)
        × (f.world.outside ≡ w.outside)
        × (f.world.durable ≡ true)
        × (f.world.database.connected ≡ true)
        × (first (has_id run_id) f.world.database.pipeline_runs
            ≡ some (new_run w.database.wall_clock run_id name trigger resume_of))
  unfolding prepare start_run
  prepare_returns trigger resume_of completed w durable up fresh refs loaded = ground (
    arith,
    load_completed-reads resume_of w,
    up.open_pool,
    up.answers (load_completed fault name resume_of w).1.database.queries,
    first-append (has_id run_id) w.database.pipeline_runs
        (new_run w.database.wall_clock run_id name trigger resume_of ∷ []),
    refers-append resume_of w.database.pipeline_runs
        (new_run w.database.wall_clock run_id name trigger resume_of) refs,
    eq_refl run_id,
  )

  -- Without faults, the `finally` block returns and leaves the runs as they are.
  cleanup-returns :
      ((n : ℕ) → fault n ≡ none)
      → (started_at : ℕ) (f : Frame S)
      → let (result, after) = cleanup fault name started_at f in
        (result ≡ ok tt) × (after.world.database.pipeline_runs ≡ f.world.database.pipeline_runs)
  unfolding cleanup
  cleanup-returns answers started_at f = elim (Option-cases f.heartbeat_task) [
    | inl idle ↦ ground (arith, idle)
    | inr (run, beats) ↦ ground (arith, beats, answers f.world.database.queries)
  ]

  -- An outcome that a returning `finally` block leaves, with the runs.
  after_cleanup-returns :
      ((n : ℕ) → fault n ≡ none)
      → (started_at : ℕ) (r : Outcome (Unit {0})) (f : Frame S)
      → let (result, after) = after_cleanup r (cleanup fault name started_at f) in
        (result ≡ r) × (run_status run_id after.world ≡ run_status run_id f.world)
  after_cleanup-returns answers started_at r f =
      let (returned, kept) = cleanup-returns answers started_at f in ground (arith, returned, kept)

  -- Without faults, when the completed steps of the run to resume can be loaded, a durable run of
  -- a fresh identifier reports what the pipeline does in a world whose context holds those steps
  -- (an exception that is no PipelineError and no cancellation wrapped in one), and its row ends
  -- with the status of that outcome; this for a pipeline that leaves the row running and the
  -- database up.
  pub execute_outcome :
      (body : Exec (World S) (Unit {0})) (trigger : String) (resume_of : Option String)
      (completed : List String) (w : World S)
      → w.durable ≡ true
      → IsUp fault w.database
      → exists (has_id run_id) w.database.pipeline_runs ≡ false
      → refers resume_of w.database.pipeline_runs ≡ true
      → (load_completed fault name resume_of w).0 ≡ ok completed
      → ((v : World S) → IsRunning fault run_id v → IsRunning fault run_id (body v).1)
      → (v : World S) × (v.context ≡ some (run_context name run_id resume_of completed))
        × (v.outside ≡ w.outside)
        × ((execute fault name run_id body trigger resume_of w).0 ≡ reported name (body v).0)
        × (run_status run_id (execute fault name run_id body trigger resume_of w).1
            ≡ some (status_of (body v).0))
  unfolding execute attempt
  execute_outcome body trigger resume_of completed w durable up fresh refs loaded keeps =
      let (result, f) = prepare fault name run_id trigger resume_of (initial_frame w) in
      let (returned, same, still, connected, row) =
        prepare_returns trigger resume_of completed w durable up fresh refs loaded in
      let v = called_in completed resume_of f in
      let (outcome, u) = body v in
      let ready = set_context (run_context name run_id resume_of completed) f in
      let running : IsRunning fault run_id v = record {
        durable = still;
        up = record { open_pool = connected; answers = up.answers };
        row = new_run w.database.wall_clock run_id name trigger resume_of;
        has_row = row;
        running = refl;
      } in
      let settled = settle_outcome outcome (record ready { world = u }) (keeps v running) in
      let (settling, g) = settle fault name run_id outcome (record ready { world = u }) in
      let (same_result, same_row) = after_cleanup-returns up.answers w.monotonic settling g in
      let finish : Outcome (List String) → Outcome (Unit {0}) × World S = λ r.
        let (o, h) = continue r (call_pipeline fault name run_id body resume_of) f in
        let (o', h') = after_cleanup o (cleanup fault name w.monotonic h) in (o', h'.world) in
      let ran : execute fault name run_id body trigger resume_of w ≡ finish (ok completed) =
        ap finish returned in
      (
        v,
        refl,
        same,
        ap (λ r. r.0) ran ∙ same_result ∙ settled.0,
        ap (λ r. run_status run_id r.1) ran ∙ same_row ∙ settled.1,
      )
