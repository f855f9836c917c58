-- ===== src/Tests/Api.antt =====
-- The theorems on the endpoints.
use stock_tracker_data_colle.Api.Routes.{Probes}
use stock_tracker_data_colle.Config.{default_settings}
use stock_tracker_data_colle.Base.{◌≡◌, refl, String, true, false, Option, none, some, [], lookup}
use stock_tracker_data_colle.Exec.{ok, pure, Exec, is_ok}
use stock_tracker_data_colle.Json.{Json, Fields, bool, text, array, object, cons, nil, field, end}
use stock_tracker_data_colle.Control.Store
use stock_tracker_data_colle.Control.Store.{finish_run, finished_run}
use stock_tracker_data_colle.Engine
use stock_tracker_data_colle.Jobs
use stock_tracker_data_colle.Jobs.{JobStatus}
use stock_tracker_data_colle.Api.{App, submit_pipeline, get_pipeline_job, status_values}
use stock_tracker_data_colle.Api.Resume.{
  submit_pipeline-load_completed, get_pipeline_job-finish_run,
}
use stock_tracker_data_colle.Tests.{no_fault, database, database-IsUp, world, a_run}

abbrev app : App (Unit {0})
app = record {
  world = world;
  jobs = record { max_retained_jobs = 10; jobs = []; tasks = []; pending_pipelines = [] };
}

submit_pipeline-load_completed_example :
    is_ok (submit_pipeline no_fault "vnstock_company" (some "r1") "j1" 7 app).0 ≡ true
unfolding Engine.load_completed Engine.is_running Store.get_run Store.completed_steps
submit_pipeline-load_completed_example =
    submit_pipeline-load_completed no_fault app refl database-IsUp "vnstock_company" "r1" "j1" 7

get_pipeline_job-finish_run_example :
    (s : JobStatus) × (lookup "completed" status_values ≡ some s)
    × ((get_pipeline_job no_fault "r2" (record app {
      world = record world { database = (finish_run no_fault "r2" "completed" none database).1 };
    })).0
        ≡ ok (record {
          id = "r2";
          pipeline = "vnstock_listing";
          status = s;
          submitted_at = 1;
          started_at = some 1;
          finished_at = some 100;
          error = none;
        }))
unfolding Jobs.get
get_pipeline_job-finish_run_example =
    get_pipeline_job-finish_run no_fault app refl database-IsUp "r2" "completed" none
      (a_run "r2" "vnstock_listing" "running" 10) refl refl refl

abbrev operator : Fields
operator = field "active" (bool true) (
    field "realm_access" (object (field "roles" (array (cons (text "pipeline_operator") nil)) end))
      end)

abbrev no_document : String → Option Json
no_document s = none

abbrev credentials : Option (String × String)
credentials = some ("bearer", "t1")

abbrev introspected : String → Exec (Unit {0}) Fields
introspected token s = (ok operator, s)

abbrev probes : Probes (Unit {0})
probes = record {
  get_settings = pure default_settings;
  clients_open = λ s. true;
  has_archive = λ s. false;
  ping_archive = pure tt;
  str = λ n. "1";
  str_sum = λ terms. "0.5";
}
