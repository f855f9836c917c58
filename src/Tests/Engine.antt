-- ===== src/Tests/Engine.antt =====
-- The theorems on the engine, at a run that resumes a failed one.
use stock_tracker_data_colle.Base.{
  ◌≡◌, refl, Bool, true, false, none, some, [], ◌∷◌, contains, ℕ, eqb, Option, if◌then◌else◌,
}
use stock_tracker_data_colle.Errors.{
  Exn, cancelled_error, source_error, pipeline_error, pipeline_busy_error,
}
use stock_tracker_data_colle.Exec.{ok, raised, Exec, pure, raise}
use stock_tracker_data_colle.Control.Context.{PipelineRunContext}
use stock_tracker_data_colle.Control.Store
use stock_tracker_data_colle.Engine.{
  World, when, attempt, prepare, settle, cleanup, execute, run, is_running, run_context, step,
  load_completed,
}
use stock_tracker_data_colle.Engine.Outcomes.{execute_outcome, run_status}
use stock_tracker_data_colle.Engine.Steps.{step_completes, IsOpen, is_completed}
use stock_tracker_data_colle.Engine.Locks.{run_only_locked, run_exclusive}
use stock_tracker_data_colle.Engine.Cleanup.{execute-Restores, Restores}
use stock_tracker_data_colle.Tests.{no_fault, database-IsUp, world}

-- A pipeline whose source fails.
abbrev pub failing : Exec (World (Unit {0})) (Unit {0})
failing = raise (source_error "no data")

execute_outcome_example :
    (v : World (Unit {0})) × (v.context
      ≡ some (run_context "vnstock_company" "r3" (some "r1") ("profile:VIC" ∷ [])))
    × (v.outside ≡ tt)
    × ((execute no_fault "vnstock_company" "r3" failing "api" (some "r1") world).0
        ≡ raised (pipeline_error "Pipeline vnstock_company failed: no data"))
    × (run_status "r3" (execute no_fault "vnstock_company" "r3" failing "api" (some "r1") world).1
        ≡ some "failed")
unfolding load_completed Store.get_run Store.completed_steps
execute_outcome_example =
    execute_outcome no_fault "vnstock_company" "r3" failing "api" (some "r1") ("profile:VIC" ∷ [])
      world refl database-IsUp refl refl refl (λ v h. h)

-- The run loads its steps, starts and finishes; then the wait for the heartbeat task is cancelled.
abbrev cancelled_last : ℕ → Option Exn
cancelled_last n = if eqb n 4 then some cancelled_error else none

left_behind :
    let (outcome, after) =
      execute cancelled_last "vnstock_company" "r3" failing "api" (some "r1") world in
    (outcome ≡ raised cancelled_error)
    × (after.context ≡ some (run_context "vnstock_company" "r3" (some "r1") ("profile:VIC" ∷ [])))
unfolding execute attempt prepare load_completed settle cleanup Store.get_run Store.completed_steps
    Store.start_run Store.finish_run
left_behind = (refl, refl)

execute-Restores_example :
    Restores cancelled_last none "r3"
      (execute cancelled_last "vnstock_company" "r3" failing "api" (some "r1") world)
execute-Restores_example =
    execute-Restores cancelled_last "vnstock_company" "r3" failing "api" (some "r1") world refl refl

-- A pipeline that fails in the worlds in which the lock of the company pipeline is free.
abbrev pub guarded : Exec (World (Unit {0})) (Unit {0})
guarded w =
    if contains "vnstock_company" w.locks then (ok tt, w) else (raised (source_error "free"), w)

run_only_locked_example :
    run no_fault "vnstock_company" "r3" guarded "api" none world
    ≡ run no_fault "vnstock_company" "r3" (pure tt) "api" none world
run_only_locked_example =
    run_only_locked no_fault "vnstock_company" "r3" "api" none guarded (pure tt) (λ v h. rw h refl)
      world

run_exclusive_example :
    (is_running "vnstock_company" world ≡ true
      → run no_fault "vnstock_company" "r3" failing "api" none world
        ≡ (raised (pipeline_busy_error "Pipeline vnstock_company is already running"), world))
    × (is_running "vnstock_company" world ≡ false
        → is_running "vnstock_company"
            (run no_fault "vnstock_company" "r3" failing "api" none world).1
          ≡ false)
run_exclusive_example = run_exclusive no_fault "vnstock_company" "r3" "api" none failing world

-- The context of a run that resumes one which has completed the profile.
abbrev pub resuming : PipelineRunContext
resuming = run_context "vnstock_company" "r1" (some "r0") ("profile:VIC" ∷ [])

abbrev pub resumed_world : World (Unit {0})
resumed_world = record world { context = some resuming }

when-failing : (b : Bool) (v : World (Unit {0})) → (when b failing v).1 ≡ v
when-failing true v = refl
when-failing false v = refl

step_completes_example :
    (v : World (Unit {0})) × IsOpen no_fault "r1" "profile:VIC" v
    × ((step no_fault "profile:VIC" "{}" (λ b. when b failing) resumed_world).0
        ≡ (when false failing v).0)
    × (is_completed resuming "profile:VIC"
          (step no_fault "profile:VIC" "{}" (λ b. when b failing) resumed_world).1
        ≡ false)
step_completes_example =
    step_completes no_fault resuming "profile:VIC" "{}" (λ b. when b failing) resumed_world refl
      refl database-IsUp refl (λ b v h. rw (when-failing b v) h) (λ v. refl)
