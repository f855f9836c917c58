-- ===== src/Control/Context.antt =====
-- app/control/context.py. The context variable itself is a field of the engine's world.
use stock_tracker_data_colle.Base.{String, List, Option}

pub record PipelineRunContext : Type 0 where
  pub run_id : String
  pub pipeline : String
  pub resume_of : Option String
  pub completed_steps : List String
