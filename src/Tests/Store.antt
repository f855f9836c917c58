-- ===== src/Tests/Store.antt =====
-- The theorems on the store and on the metrics, at a small database.
use stock_tracker_data_colle.Control.Store.Integrity.{served_all-HasIntegrity}
use stock_tracker_data_colle.Control.Store.Constraints.{
  HasIntegrity, Request, starts_run, beats, finishes_run, recovers, starts_step, finishes_step,
  puts_watermark, records_object, waits, served_all,
}
use stock_tracker_data_colle.Control.Schema.{Database}
use stock_tracker_data_colle.Errors.{Exn, foreign_error}
use stock_tracker_data_colle.Base.{
  ◌≡◌, refl, true, none, some, [], ℕ, Option, List, ◌∷◌, eqb, if◌then◌else◌,
}
use stock_tracker_data_colle.Exec.{◌>>◌}
use stock_tracker_data_colle.Control.Store.{finish_step, completed_steps}
use stock_tracker_data_colle.Control.Store.Steps.{completed_steps-finish_step, returns_key}
use stock_tracker_data_colle.Tests.{no_fault, database, database-IsUp, an_object}

completed_steps-finish_step_example :
    returns_key "news:VIC"
      ((finish_step no_fault "r1" "news:VIC" "completed" none >> completed_steps no_fault "r1")
        database).0
    ≡ true
completed_steps-finish_step_example =
    completed_steps-finish_step no_fault database database-IsUp "r1" "news:VIC" "completed" none
      "r1" "news:VIC" refl

-- The tables of the migration, empty, and a second query that fails.
abbrev fresh : Database
fresh = record {
  connected = true;
  clock = 100;
  wall_clock = 100;
  queries = 0;
  advisory_locks = [];
  pipeline_runs = [];
  pipeline_steps = [];
  watermarks = [];
  raw_objects = [];
}

abbrev requests : List Request
requests =
    starts_run "r1" "vnstock_company" "api" none
    ∷ beats "r1"
    ∷ starts_step "r1" "news:VIC" "{}"
    ∷ starts_step "r9" "news:VIC" "{}"
    ∷ finishes_step "r1" "news:VIC" "completed" none
    ∷ starts_step "r1" "news:VIC" "{}"
    ∷ waits 9 9
    ∷ puts_watermark "vnstock_company" "news" "VIC" "{}" none (some "r1")
    ∷ records_object an_object
    ∷ finishes_run "r1" "done" none
    ∷ recovers 5
    ∷ []

abbrev second_fails : ℕ → Option Exn
second_fails n = if eqb n 1 then some (foreign_error "lost") else none

served_all-HasIntegrity_example : HasIntegrity (served_all second_fails requests fresh)
served_all-HasIntegrity_example = served_all-HasIntegrity second_fails requests fresh (record {
  run_keys = tt;
  step_keys = tt;
  mark_keys = tt;
  object_keys = tt;
  each_run = tt;
  each_step = tt;
  each_mark = tt;
  each_object = tt;
})
