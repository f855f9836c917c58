-- ===== src/Api/Routes.antt =====
-- app/main.py: the routes of the application with the check that stands before their handlers, and
-- the pipelines that the scheduler runs. The client of Keycloak changes only what is outside.
use mathlib.Core.Option
use stock_tracker_data_colle.Base.{
  ℕ, String, Bool, true, false, ◌&&◌, Option, none, some, List, [], ◌∷◌, ◌++◌, if◌then◌else◌,
}
use stock_tracker_data_colle.Errors.{Exn, runtime_error, is_exception}
use stock_tracker_data_colle.Exec.{raised, try_except, raise, gets, Exec, pure, zoom, ◌>>=◌, ◌>>◌}
use stock_tracker_data_colle.Json.{Json, Fields}
use stock_tracker_data_colle.Engine.{World, run, on_store}
use stock_tracker_data_colle.Control.Store
use stock_tracker_data_colle.Config.{Settings}
use stock_tracker_data_colle.Metrics.Render.{render}
use stock_tracker_data_colle.Jobs.{PipelineJob}
use stock_tracker_data_colle.Api.{
  App, on_engine, PipelineRunResponse, submit_pipeline, get_pipeline_job, require_pipeline_operator,
}

pub record PipelineRunRequest : Type 0 where
  pub resume_from : Option String

-- the pipelines with an endpoint and a scheduled job
pub data Pipeline : Type 0 where
  listing company market_data : Pipeline

abbrev pub pipeline_name : Pipeline → String
pipeline_name listing = "vnstock_listing"
pipeline_name company = "vnstock_company"
pipeline_name market_data = "vnstock_market_data"

pub data Route : Type 0 where
  -- GET /health and GET /health/live
  health : Route
  -- GET /health/ready
  ready : Route
  -- GET /metrics
  metrics : Route
  -- POST /run/vnstock-listing, /run/vnstock-company and /run/vnstock-market-data
  run_pipeline : Pipeline → Option PipelineRunRequest → Route
  -- GET /run/jobs/{job_id}
  job : String → Route

pub data Reply : Type 0 where
  alive : Reply
  -- whether the status is 200, and the checks that are listed
  readiness : Bool → List (String × String) → Reply
  -- the text of the metrics
  exposition : Option String → Reply
  accepted : PipelineRunResponse → Reply
  found : PipelineJob → Reply

-- request.resume_from if request is not None else None
abbrev pub resumed : Option PipelineRunRequest → Option String
resumed none = none
resumed (some request) = request.resume_from

module _ {S : Type 0} where
  abbrev pub on_outside : {A : Type 0} → Exec S A → Exec (App S) A
  on_outside =
      zoom (λ a. a.world.outside) (λ s a. record a { world = record a.world { outside = s } })

module _ {S : Type 0} (json_loads : String → Option Json) (lower : String → String)
    (introspect : String → Exec S Fields) where
  -- Depends(require_pipeline_operator)
  unfoldable pub operator_check : Option (String × String) → Exec (App S) (Unit {0})
  operator_check credentials =
      require_pipeline_operator json_loads lower (λ token. on_outside (introspect token))
        credentials

-- What the probes read beside the engine: the settings, the clients, the archive, and what Python
-- prints of the numbers of the metrics.
pub record Probes (S : Type 0) : Type 0 where
  pub get_settings : Exec S Settings
  -- _auth is not None and _http_client is not None and not _http_client.is_closed
  pub clients_open : S → Bool
  -- _raw_archive is not None, and _raw_archive.ping()
  pub has_archive : S → Bool
  pub ping_archive : Exec S (Unit {0})
  pub str : ℕ → String
  pub str_sum : List ℕ → String

-- "ok" if ready else "unavailable"
abbrev pub state_text : Bool → String
state_text true = "ok"
state_text false = "unavailable"

-- a check that was made, in the dict of the checks
abbrev pub entry_of : String → Option Bool → List (String × String)
entry_of name none = []
entry_of name (some passed) = (name, state_text passed) ∷ []

abbrev pub not_failed : Option Bool → Bool
not_failed none = true
not_failed (some passed) = passed

module _ {S : Type 0} (probes : Probes S) (fault : ℕ → Option Exn) where
  -- `try: ping` / `except Exception`, if the part is enabled
  abbrev pub checked : Bool → Exec (App S) (Unit {0}) → Exec (App S) (Option Bool)
  checked false ping = pure none
  checked true ping =
      try_except (ping >> pure (some true))
        (λ e. if is_exception e then pure (some false) else raise e)

  abbrev pub ping_store : Exec (App S) (Unit {0})
  ping_store a =
      if a.world.durable
      then on_engine (on_store (Store.ping fault)) a
      else (raised (runtime_error "pipeline store is not initialized"), a)

  abbrev pub ping_raw_archive : Exec (App S) (Unit {0})
  ping_raw_archive a =
      if probes.has_archive a.world.outside
      then on_outside probes.ping_archive a
      else (raised (runtime_error "raw archive is not initialized"), a)

  -- readiness, where the clients are looked at first
  abbrev pub probed : Bool → Exec (App S) Reply
  probed clients = do
    settings ← on_outside probes.get_settings
    database ← checked settings.control_plane_enabled ping_store
    settings' ← on_outside probes.get_settings
    archive ← checked settings'.raw_archive_enabled ping_raw_archive
    pure (
        readiness (clients && (not_failed database && not_failed archive)) (
          ("http_client", state_text clients)
          ∷ (entry_of "control_database" database ++ entry_of "raw_archive" archive)))

  -- the handlers; `job_id` is what uuid4() returns
  unfoldable pub handle : String → ℕ → Route → Exec (App S) Reply
  handle job_id now health = pure alive
  handle job_id now ready = λ a. probed (probes.clients_open a.world.outside) a
  handle job_id now metrics =
      gets λ a. exposition (Option.map (render probes.str probes.str_sum) a.world.metrics)
  handle job_id now (run_pipeline pipeline request) = do
    response ← submit_pipeline fault (pipeline_name pipeline) (resumed request) job_id now
    pure (accepted response)
  handle job_id now (job i) = do j ← get_pipeline_job fault i; pure (found j)

module _ {S : Type 0} (json_loads : String → Option Json) (lower : String → String)
    (introspect : String → Exec S Fields) (probes : Probes S) (fault : ℕ → Option Exn) where
  -- a request of a caller with the credentials, or without any
  unfoldable pub serve : String → ℕ → Option (String × String) → Route → Exec (App S) Reply
  serve job_id now credentials health = handle probes fault job_id now health
  serve job_id now credentials ready = handle probes fault job_id now ready
  serve job_id now credentials metrics = handle probes fault job_id now metrics
  serve job_id now credentials route =
      operator_check json_loads lower introspect credentials >> handle probes fault job_id now route

module _ {S : Type 0} (fault : ℕ → Option Exn) where
  -- _scheduled_listing, _scheduled_company, _scheduled_market_data
  unfoldable pub scheduled :
      Pipeline → String → Exec (World S) (Unit {0}) → Exec (World S) (Unit {0})
  scheduled pipeline run_id body = do
    r ← run fault (pipeline_name pipeline) run_id body "schedule" none
    pure tt
