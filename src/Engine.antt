-- ===== src/Engine.antt =====
-- app/engine/pipeline.py: PipelineEngine. The class attributes, the context variable, the running
-- heartbeat tasks and the database are one world; `outside` is what else the pipelines change.
pub mod State
pub mod Cleanup
pub mod Outcomes
pub mod Steps
pub mod Locks
use stock_tracker_data_colle.Base.{
  ℕ, ◌+◌, ◌-◌, String, Bool, true, false, not, Option, none, some, List, [], ◌∷◌, ◌==◌,
  if◌then◌else◌, contains, discard, format,
}
use stock_tracker_data_colle.Errors.{
  Exn, pipeline_error, pipeline_busy_error, cancelled_error, system_exit, is_exception,
  is_pipeline_error, message,
}
use stock_tracker_data_colle.Exec.{
  Outcome, ok, raised, Exec, pure, raise, modify, zoom, try_finally, try_except, ◌>>=◌, ◌>>◌,
}
use stock_tracker_data_colle.Control.Context.{PipelineRunContext}
use stock_tracker_data_colle.Control.Schema.{PipelineRun, Database}
use stock_tracker_data_colle.Control.Store
use stock_tracker_data_colle.Metrics.{HttpMetrics, observe_pipeline}
unfoldable pub use State.*

abbrev pub resumable_statuses : List String
resumable_statuses = "failed" ∷ "cancelled" ∷ "abandoned" ∷ []

abbrev pub lock_name : String → String
lock_name pipeline = format ("stocktracker:collector:" ∷ pipeline ∷ [])

module _ (fault : ℕ → Option Exn) where
  -- pg_try_advisory_lock, on a connection of its own
  unfoldable pub try_advisory_lock : String → Exec Database Bool
  unfolding Store.require_pool Store.query
  try_advisory_lock name = do
    Store.require_pool
    Store.query fault λ d.
        if contains name d.advisory_locks
        then (ok false, d)
        else (ok true, record d { advisory_locks = name ∷ d.advisory_locks })

  -- pg_advisory_unlock; a failure is logged and swallowed
  unfoldable pub advisory_unlock : String → Exec Database (Unit {0})
  unfolding Store.query
  advisory_unlock name =
      try_except
        (Store.query fault
          λ d. (ok tt, record d { advisory_locks = discard name d.advisory_locks }))
        (λ e. if is_exception e then pure tt else raise e)

module _ {S : Type 0} where
  abbrev pub on_store : {A : Type 0} → Exec Database A → Exec (World S) A
  on_store = zoom (λ w. w.database) (λ d w. record w { database = d })

  abbrev pub on_world : {A : Type 0} → Exec (World S) A → Exec (Frame S) A
  on_world = zoom (λ f. f.world) (λ w f. record f { world = w })

  -- `if condition: action`
  abbrev pub when : Bool → Exec (World S) (Unit {0}) → Exec (World S) (Unit {0})
  when true m = m
  when false m = pure tt

  module _ (fault : ℕ → Option Exn) where
    -- the checks on the run that is resumed, and its completed steps
    abbrev pub resumed_steps : String → String → Option PipelineRun → Exec (World S) (List String)
    resumed_steps name previous none =
        raise (pipeline_error (format ("Cannot resume missing pipeline run " ∷ previous ∷ [])))
    resumed_steps name previous (some run) =
        if not (run.pipeline == name)
        then raise (
            pipeline_error
              (format ("Cannot resume " ∷ name ∷ " from a " ∷ run.pipeline ∷ " pipeline run" ∷ [])))
        else if not (contains run.status resumable_statuses)
        then raise (
            pipeline_error (
              format
                ("Cannot resume pipeline run " ∷ previous ∷ " with status " ∷ run.status ∷ [])))
        else on_store (Store.completed_steps fault previous)

    unfoldable pub load_completed : String → Option String → Exec (World S) (List String)
    load_completed name none = pure []
    load_completed name (some previous) = do
      run ← on_store (Store.get_run fault previous)
      resumed_steps name previous run

    -- what `_execute` does before it sets the context
    unfoldable pub prepare : String → String → String → Option String → Exec (Frame S) (List String)
    prepare name run_id trigger resume_of f =
        if f.world.durable
        then (do
          completed ← on_world (load_completed name resume_of)
          on_world (on_store (Store.start_run fault run_id name trigger resume_of))
          modify (start_heartbeat run_id)
          pure completed)
            f
        else elim resume_of [
          | none ↦ (ok [], f)
          | some previous ↦
              (raised (pipeline_error "Pipeline resume requires the durable control plane"), f)
        ]

    -- `if cls._store is not None: await cls._store.finish_run(…)`
    abbrev pub finish : String → String → Option String → Exec (World S) (Unit {0})
    finish run_id status error w =
        when w.durable (on_store (Store.finish_run fault run_id status error)) w

    -- the `except` and `else` clauses around the pipeline's own code
    unfoldable pub settle : String → String → Outcome (Unit {0}) → Exec (Frame S) (Unit {0})
    settle name run_id (ok _) = do
      modify (set_status "completed")
      on_world (finish run_id "completed" none)
    settle name run_id (raised cancelled_error) = do
      modify (set_status "cancelled")
      on_world (finish run_id "cancelled" (some "pipeline task cancelled"))
      raise cancelled_error
    settle name run_id (raised (system_exit m)) = raise (system_exit m)
    settle name run_id (raised e) = do
      modify (set_status "failed")
      on_world (finish run_id "failed" (some (message e)))
      raise (
          if is_pipeline_error e
          then e
          else pipeline_error (format ("Pipeline " ∷ name ∷ " failed: " ∷ message e ∷ [])))

    -- the context is set, and the pipeline's own code is called
    abbrev pub call_pipeline :
        String
        → String
        → Exec (World S) (Unit {0})
        → Option String
        → List String
        → Exec (Frame S) (Unit {0})
    call_pipeline name run_id body resume_of completed f =
        let ready = set_context (run_context name run_id resume_of completed) f in
        let (outcome, w) = body ready.world in
        settle name run_id outcome (record ready { world = w })

    -- `await asyncio.gather(heartbeat_task, …)`: the environment may cancel the task that waits here, as
    -- it may fail a query, by which the waits are counted too.
    abbrev pub await_heartbeat : Option String → Exec (World S) (Unit {0})
    await_heartbeat none w = (ok tt, w)
    await_heartbeat (some run_id) w =
        let counted : World S = record w {
          database = record w.database { queries = w.database.queries + 1 };
        } in
        elim (fault w.database.queries) [
          | some e ↦ (raised cancelled_error, counted)
          | none ↦ (ok tt, counted)
        ]

    -- the `finally` block of `_execute`
    unfoldable pub cleanup : String → ℕ → Exec (Frame S) (Unit {0})
    cleanup name started_at = do
      modify (λ f. record f { world = cancel_heartbeat f.heartbeat_task f.world })
      λ f. on_world (await_heartbeat f.heartbeat_task) f
      modify λ f. record f {
        world = observed name f.terminal_status started_at (reset_context f.token f.world);
      }

    -- the body of the `try` of `_execute`
    unfoldable pub attempt :
        String
        → String
        → Exec (World S) (Unit {0})
        → String
        → Option String
        → Exec (Frame S) (Unit {0})
    attempt name run_id body trigger resume_of = do
      completed ← prepare name run_id trigger resume_of
      call_pipeline name run_id body resume_of completed

    -- _execute
    unfoldable pub execute :
        String
        → String
        → Exec (World S) (Unit {0})
        → String
        → Option String
        → Exec (World S) (Unit {0})
    execute name run_id body trigger resume_of w =
        let (outcome, f) =
          try_finally (attempt name run_id body trigger resume_of) (cleanup name w.monotonic)
            (initial_frame w) in
        (outcome, f.world)

    abbrev pub locked_block : String → Exec (World S) (Unit {0}) → Bool → Exec (World S) (Unit {0})
    locked_block pipeline block false = raise (
        pipeline_busy_error
          (format ("Pipeline " ∷ pipeline ∷ " is already running in another collector" ∷ [])))
    locked_block pipeline block true =
        try_finally block (on_store (advisory_unlock fault (lock_name pipeline)))

    -- acquire_pipeline_lock of the store, around a block
    unfoldable pub with_pipeline_lock :
        String → Exec (World S) (Unit {0}) → Exec (World S) (Unit {0})
    with_pipeline_lock pipeline block = do
      locked ← on_store (try_advisory_lock fault (lock_name pipeline))
      locked_block pipeline block locked

    -- what `run` does while it holds the local lock
    unfoldable pub locked_run :
        String
        → String
        → Exec (World S) (Unit {0})
        → String
        → Option String
        → Exec (World S) (Unit {0})
    locked_run name run_id body trigger resume_of w =
        if w.durable
        then with_pipeline_lock name (execute name run_id body trigger resume_of) w
        else execute name run_id body trigger resume_of w

    -- run; the caller's `run_id`, or the fresh one of uuid4(), is given as `run_id`
    unfoldable pub run :
        String → String → Exec (World S) (Unit {0}) → String → Option String → Exec (World S) String
    run name run_id body trigger resume_of w =
        if contains name w.locks
        then (
          raised (pipeline_busy_error (format ("Pipeline " ∷ name ∷ " is already running" ∷ []))),
          w,
        )
        else (do
          try_finally (locked_run name run_id body trigger resume_of) (modify (release_local name))
          pure run_id)
            (acquire_local name w)

    -- one round of `_heartbeat_loop`: an error is logged and swallowed
    unfoldable pub heartbeat_round : String → Exec (World S) (Unit {0})
    heartbeat_round run_id =
        try_except (on_store (Store.heartbeat fault run_id))
          (λ e. if is_exception e then pure tt else raise e)

    -- `if cls._store is not None and context is not None`
    abbrev pub with_context :
        Option PipelineRunContext
        → (PipelineRunContext → Exec (World S) (Unit {0}))
        → Exec (World S) (Unit {0})
    with_context none m w = (ok tt, w)
    with_context (some context) m w = when w.durable (m context) w

    unfoldable pub open_step :
        Option PipelineRunContext → String → String → Exec (World S) (Unit {0})
    open_step context step_key metadata = with_context context λ c. do
      on_store (Store.start_step fault c.run_id step_key metadata)
      when (not (should_run context step_key))
          (on_store (Store.finish_step fault c.run_id step_key "skipped" none))

    unfoldable pub close_step :
        Option PipelineRunContext → String → Outcome (Unit {0}) → Exec (World S) (Unit {0})
    close_step context step_key (ok _) = with_context context λ c.
        when (should_run context step_key)
          (on_store (Store.finish_step fault c.run_id step_key "completed" none))
    close_step context step_key (raised e) = do
      with_context context λ c.
          when (should_run context step_key)
            (on_store (Store.finish_step fault c.run_id step_key "failed" (some (message e))))
      raise e

    -- step: `async with PipelineEngine.step(key) as should_run: block`
    unfoldable pub step :
        String → String → (Bool → Exec (World S) (Unit {0})) → Exec (World S) (Unit {0})
    step step_key metadata block w =
        (do
          open_step w.context step_key metadata
          λ v.
              let (outcome, u) = block (should_run w.context step_key) v in
              close_step w.context step_key outcome u)
          w

    unfoldable pub put_watermark :
        String → String → String → Option String → Exec (World S) (Unit {0})
    put_watermark stream partition_key cursor source w =
        with_context w.context
          (λ c. on_store (
            Store.put_watermark fault c.pipeline stream partition_key cursor source
              (some c.run_id)))
          w
