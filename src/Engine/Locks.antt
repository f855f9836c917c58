-- ===== src/Engine/Locks.antt =====
-- The exclusion of `PipelineEngine.run`: one run of a pipeline at a time in a process.
use stock_tracker_data_colle.Base.{
  ℕ, String, ◌≡◌, refl, ap, Bool, true, false, Option, List, [], ◌∷◌, arith, contains,
  contains-discard_self, if◌then◌else◌, format, eq_refl,
}
use stock_tracker_data_colle.Errors.{Exn, pipeline_busy_error}
use stock_tracker_data_colle.Exec.{Outcome, Exec, ok, raised, continue, after_cleanup}
use stock_tracker_data_colle.Engine.{
  World, Frame, execute, attempt, prepare, settle, run, is_running, run_context, set_context,
  with_pipeline_lock, locked_run, acquire_local, call_pipeline, initial_frame, lock_name,
  try_advisory_lock, advisory_unlock, locked_block, on_store,
}
use stock_tracker_data_colle.Engine.Outcomes.{load_completed-reads}

module _ {S : Type 0} (fault : ℕ → Option Exn) (name run_id trigger : String)
    (resume_of : Option String) where
  prepare-locks :
      (f : Frame S) → (prepare fault name run_id trigger resume_of f).1.world.locks ≡ f.world.locks
  unfolding prepare
  prepare-locks f = ground (arith, load_completed-reads fault name run_id resume_of f.world)

  -- Two pipelines that do the same in every world where the lock of `name` is held.
  module _ (body body' : Exec (World S) (Unit {0}))
      (same : (v : World S) → contains name v.locks ≡ true → body v ≡ body' v) where
    continue_same :
        (prepared : Outcome (List String)) (f : Frame S)
        → contains name f.world.locks ≡ true
        → continue prepared (call_pipeline fault name run_id body resume_of) f
          ≡ continue prepared (call_pipeline fault name run_id body' resume_of) f
    continue_same (ok completed) f h =
        let ready = set_context (run_context name run_id resume_of completed) f in
        ap (λ p. settle fault name run_id p.0 (record ready { world = p.1 })) (same ready.world h)
    continue_same (raised e) f h = refl

    attempt_same :
        (f : Frame S)
        → contains name f.world.locks ≡ true
        → attempt fault name run_id body trigger resume_of f
          ≡ attempt fault name run_id body' trigger resume_of f
    unfolding attempt
    attempt_same f h =
        let (prepared, g) = prepare fault name run_id trigger resume_of f in
        continue_same prepared g (rw (prepare-locks f) h)

    execute_same :
        (w : World S)
        → contains name w.locks ≡ true
        → execute fault name run_id body trigger resume_of w
          ≡ execute fault name run_id body' trigger resume_of w
    unfolding execute
    execute_same w h = rw (attempt_same (initial_frame w) h)

    block_same :
        (locked : Outcome Bool) (w : World S)
        → contains name w.locks ≡ true
        → continue locked
            (locked_block fault name (execute fault name run_id body trigger resume_of))
            w
          ≡ continue locked
              (locked_block fault name (execute fault name run_id body' trigger resume_of))
              w
    block_same (ok true) w h =
        ap (λ r. after_cleanup r.0 (on_store (advisory_unlock fault (lock_name name)) r.1))
          (execute_same w h)
    block_same (ok false) w h = refl
    block_same (raised e) w h = refl

    with_pipeline_lock_same :
        (w : World S)
        → contains name w.locks ≡ true
        → with_pipeline_lock fault name (execute fault name run_id body trigger resume_of) w
          ≡ with_pipeline_lock fault name (execute fault name run_id body' trigger resume_of) w
    unfolding with_pipeline_lock
    with_pipeline_lock_same w h =
        let (locked, d) = try_advisory_lock fault (lock_name name) w.database in
        block_same locked (record w { database = d }) h

    locked_run_same :
        (w : World S)
        → contains name w.locks ≡ true
        → locked_run fault name run_id body trigger resume_of w
          ≡ locked_run fault name run_id body' trigger resume_of w
    unfolding locked_run
    locked_run_same w h =
        λ i. if w.durable then with_pipeline_lock_same w h i else execute_same w h i

    -- `run` calls the pipeline only in worlds where the lock of its name is held: what the pipeline
    -- would do in any other world does not matter.
    pub run_only_locked :
        (w : World S)
        → run fault name run_id body trigger resume_of w
          ≡ run fault name run_id body' trigger resume_of w
    unfolding run
    run_only_locked w = rw (locked_run_same (acquire_local name w) (ground (arith, eq_refl name)))

  -- A pipeline that is running is refused, and the refusal changes nothing; after a run that was
  -- not refused the pipeline is not running, however the run ended.
  pub run_exclusive :
      (body : Exec (World S) (Unit {0})) (w : World S)
      → (is_running name w ≡ true
          → run fault name run_id body trigger resume_of w ≡ (
            raised (pipeline_busy_error (format ("Pipeline " ∷ name ∷ " is already running" ∷ []))),
            w,
          ))
        × (is_running name w ≡ false
            → is_running name (run fault name run_id body trigger resume_of w).1 ≡ false)
  unfolding run is_running
  run_exclusive body w = (
    λ busy. rw busy,
    λ free. rw free (
        ground (
          arith,
          contains-discard_self name
              (locked_run fault name run_id body trigger resume_of (acquire_local name w)).1.locks,
        )),
  )
