-- ===== src/Engine/State.antt =====
-- The state of the engine, and what `_execute` does to it without the store.
use stock_tracker_data_colle.Base.{
  ℕ, ◌-◌, String, Bool, true, not, Option, none, some, List, ◌∷◌, contains, discard,
}
use stock_tracker_data_colle.Control.Context.{PipelineRunContext}
use stock_tracker_data_colle.Control.Schema.{Database}
use stock_tracker_data_colle.Metrics.{HttpMetrics, observe_pipeline}

pub record World (S : Type 0) : Type 0 where
  -- `cls._store is not None`
  pub durable : Bool
  pub database : Database
  -- the pipelines whose asyncio.Lock is locked
  pub locks : List String
  -- the context variable `pipeline_run`
  pub context : Option PipelineRunContext
  -- the runs whose heartbeat task is alive
  pub heartbeats : List String
  pub metrics : Option HttpMetrics
  -- time.monotonic() and time.time()
  pub monotonic : ℕ
  pub time : ℕ
  pub outside : S

-- the local variables of `_execute` that its `finally` reads
pub record Frame (S : Type 0) : Type 0 where
  pub world : World S
  pub heartbeat_task : Option String
  pub token : Option (Option PipelineRunContext)
  pub terminal_status : String

abbrev pub run_context : String → String → Option String → List String → PipelineRunContext
run_context name run_id resume_of completed = record {
  run_id = run_id;
  pipeline = name;
  resume_of = resume_of;
  completed_steps = completed;
}

abbrev pub should_run : Option PipelineRunContext → String → Bool
should_run none step_key = true
should_run (some context) step_key = not (contains step_key context.completed_steps)

module _ {S : Type 0} where
  -- configure; the period of the heartbeat, which only its loop reads, is left out
  unfoldable pub configure : Bool → Option HttpMetrics → World S → World S
  configure has_store metrics w = record w { durable = has_store; metrics = metrics }

  -- is_running
  unfoldable pub is_running : String → World S → Bool
  is_running name w = contains name w.locks

  abbrev pub observed : String → String → ℕ → World S → World S
  observed name status started_at w = record w {
    metrics = elim w.metrics [
      | none ↦ none
      | some m ↦ some (observe_pipeline name status (w.monotonic - started_at) w.time m)
    ];
  }

  abbrev pub acquire_local : String → World S → World S
  acquire_local name w = record w { locks = name ∷ w.locks }

  abbrev pub release_local : String → World S → World S
  release_local name w = record w { locks = discard name w.locks }

  abbrev pub cancel_heartbeat : Option String → World S → World S
  cancel_heartbeat none w = w
  cancel_heartbeat (some run_id) w = record w { heartbeats = discard run_id w.heartbeats }

  abbrev pub reset_context : Option (Option PipelineRunContext) → World S → World S
  reset_context none w = w
  reset_context (some before) w = record w { context = before }

  abbrev pub start_heartbeat : String → Frame S → Frame S
  start_heartbeat run_id f = record f {
    world = record f.world { heartbeats = run_id ∷ f.world.heartbeats };
    heartbeat_task = some run_id;
  }

  abbrev pub set_context : PipelineRunContext → Frame S → Frame S
  set_context context f = record f {
    world = record f.world { context = some context };
    token = some f.world.context;
  }

  -- the local variables at the start of `_execute`
  abbrev pub initial_frame : World S → Frame S
  initial_frame w = record {
    world = w;
    heartbeat_task = none;
    token = none;
    terminal_status = "failed";
  }

  abbrev pub set_status : String → Frame S → Frame S
  set_status status f = record f { terminal_status = status }
