-- ===== src/Tests.antt =====
-- Concrete states, and the theorems of the library applied to them.
mod Store
pub mod Provider
mod Source
mod Processors
mod Engine
mod Jobs
mod RateLimit
mod Pipelines
mod Delivered
mod Metrics
mod Api
mod Archive
mod Http
mod Migrations
use stock_tracker_data_colle.Base.{ℕ, String, true, Option, none, some, [], ◌∷◌, refl}
use stock_tracker_data_colle.Errors.{Exn}
use stock_tracker_data_colle.Control.Schema.{PipelineRun, PipelineStep, RawObject, Database}
use stock_tracker_data_colle.Control.Store.Runs.{IsUp}
use stock_tracker_data_colle.Engine.{World}
use stock_tracker_data_colle.Metrics.{HttpMetrics}

abbrev pub no_fault : ℕ → Option Exn
no_fault n = none

abbrev pub a_run : String → String → String → ℕ → PipelineRun
a_run id pipeline status beat = record {
  id = id;
  pipeline = pipeline;
  status = status;
  trigger = "api";
  submitted_at = 1;
  started_at = some 1;
  heartbeat_at = some beat;
  finished_at = none;
  error = none;
  resume_of = none;
}

abbrev pub a_step : String → String → String → PipelineStep
a_step run_id step_key status = record {
  run_id = run_id;
  step_key = step_key;
  status = status;
  attempt = 1;
  started_at = 2;
  finished_at = none;
  error = none;
  metadata = [];
}

abbrev pub an_object : RawObject
an_object = record {
  run_id = "r1";
  pipeline = "vnstock_company";
  operation = "company_news";
  object_key = "raw/a.json.gz";
  checksum_sha256 = "00";
  row_count = some 3;
  source = some "VCI";
  schema_version = "1";
  parameters = "{}";
}

-- A company run that failed after one of its steps, and a listing run without a recent heartbeat.
abbrev pub database : Database
database = record {
  connected = true;
  clock = 100;
  wall_clock = 100;
  queries = 0;
  advisory_locks = [];
  pipeline_runs =
      a_run "r1" "vnstock_company" "failed" 20 ∷ a_run "r2" "vnstock_listing" "running" 10 ∷ [];
  pipeline_steps = a_step "r1" "profile:VIC" "completed" ∷ a_step "r1" "news:VIC" "failed" ∷ [];
  watermarks = [];
  raw_objects = [];
}

pub database-IsUp : IsUp no_fault database
database-IsUp = record { open_pool = refl; answers = λ n. refl }

abbrev pub no_metrics : HttpMetrics
no_metrics = record {
  service = "DataCollector";
  requests = [];
  duration_sum = [];
  pipeline_runs = [];
  pipeline_duration_sum = [];
  pipeline_last_success = [];
}

abbrev pub world : World (Unit {0})
world = record {
  durable = true;
  database = database;
  locks = [];
  context = none;
  heartbeats = [];
  metrics = some no_metrics;
  monotonic = 5;
  time = 1_000;
  outside = tt;
}
