-- ===== src/Api.antt =====
-- app/main.py: the endpoints that submit a pipeline and read a job, and the check of the operator's
-- token. The module's `_pipeline_store` is the engine's store, as the lifespan
-- configures it, so that it is None exactly if the engine is not durable.
pub mod Resume
pub mod Access
pub mod Globals
pub mod Routes
pub mod Guarded
use stock_tracker_data_colle.Base.{
  ℕ, String, Bool, true, false, not, ◌&&◌, ◌||◌, Option, none, some, List, [], ◌∷◌, ◌==◌,
  if◌then◌else◌, contains, format, lookup,
}
use stock_tracker_data_colle.Errors.{
  Exn, pipeline_busy_error, runtime_error, value_error, http_exception, is_exception,
}
use stock_tracker_data_colle.Exec.{
  Outcome, ok, raised, Exec, pure, raise, lift, zoom, try_except, ◌>>=◌, ◌>>◌,
}
use stock_tracker_data_colle.Json.{
  get_key, Json, Fields, Items, null, bool, text, object, array, nil, cons, field,
}
use stock_tracker_data_colle.Control.Schema.{PipelineRun}
use stock_tracker_data_colle.Control.Store
use stock_tracker_data_colle.Engine.{World, on_store, is_running}
use stock_tracker_data_colle.Jobs
use stock_tracker_data_colle.Jobs.{
  JobStatus, PipelineJob, JobRegistry, pending, running, completed, failed, cancelled, abandoned,
}

-- the engine's world and `_jobs`
pub record App (S : Type 0) : Type 0 where
  pub world : World S
  pub jobs : JobRegistry

pub record PipelineRunResponse : Type 0 where
  pub job_id : String
  pub pipeline : String
  pub status : JobStatus

-- The statuses that `_submit_pipeline` lists for a run to be resumed.
abbrev pub accepted_statuses : List String
accepted_statuses = "failed" ∷ "cancelled" ∷ "abandoned" ∷ []

-- The checks of `_submit_pipeline` on the run that the request names.
unfoldable pub check_previous : String → String → Option PipelineRun → Outcome (Unit {0})
check_previous name resume_from none =
    raised (http_exception "404" "Resume source run was not found")
check_previous name resume_from (some previous) =
    if not (previous.pipeline == name)
    then raised (
        http_exception "409"
          (format ("Run " ∷ resume_from ∷ " belongs to pipeline " ∷ previous.pipeline ∷ [])))
    else if not (contains previous.status accepted_statuses)
    then raised (
        http_exception "409" (
          format (
            "Run " ∷ resume_from ∷ " has status " ∷ previous.status ∷ " and cannot be resumed"
            ∷ [])))
    else ok tt

-- `except PipelineBusyError as exc: raise HTTPException(409)`
abbrev pub as_conflict : Exn → Exn
as_conflict (pipeline_busy_error m) = http_exception "409" m
as_conflict e = e

-- The values of the enumeration JobStatus.
abbrev pub status_values : List (String × JobStatus)
status_values =
    ("pending", pending)
    ∷ ("running", running)
    ∷ ("completed", completed)
    ∷ ("failed", failed)
    ∷ ("cancelled", cancelled)
    ∷ ("abandoned", abandoned)
    ∷ []

-- JobStatus(text)
unfoldable pub parse_status : String → Outcome JobStatus
parse_status s = elim (lookup s status_values) [
  | none ↦ raised (value_error (format (s ∷ " is not a valid JobStatus" ∷ [])))
  | some status ↦ ok status
]

abbrev pub response : PipelineJob → PipelineRunResponse
response job = record { job_id = job.id; pipeline = job.pipeline; status = job.status }

abbrev pub job_of : PipelineRun → JobStatus → PipelineJob
job_of r status = record {
  id = r.id;
  pipeline = r.pipeline;
  status = status;
  submitted_at = r.submitted_at;
  started_at = r.started_at;
  finished_at = r.finished_at;
  error = r.error;
}

module _ {S : Type 0} where
  abbrev pub on_engine : {A : Type 0} → Exec (World S) A → Exec (App S) A
  on_engine = zoom (λ a. a.world) (λ w a. record a { world = w })

  -- the call of `_jobs.submit`, with its `except`
  abbrev pub submit_job : String → ℕ → String → Exec (App S) PipelineJob
  submit_job job_id now name a =
      let busy = is_running name a.world in
      try_except
        (zoom (λ b. b.jobs) (λ r b. record b { jobs = r }) (Jobs.submit busy job_id now name))
        (λ e. raise (as_conflict e)) a

  module _ (fault : ℕ → Option Exn) where
    -- the block `if resume_from is not None`
    unfoldable pub check_resume : String → Option String → Exec (App S) (Unit {0})
    check_resume name none a = (ok tt, a)
    check_resume name (some resume_from) a =
        if a.world.durable
        then (do
          previous ← on_engine (on_store (Store.get_run fault resume_from))
          lift (check_previous name resume_from previous))
            a
        else (raised (http_exception "503" "Pipeline resume requires the durable control plane"), a)

    -- _submit_pipeline: `job_id` is what uuid4() returns in JobRegistry.submit.
    unfoldable pub submit_pipeline :
        String → Option String → String → ℕ → Exec (App S) PipelineRunResponse
    submit_pipeline name resume_from job_id now = do
      check_resume name resume_from
      job ← submit_job job_id now name
      pure (response job)

    abbrev pub found_run : Option PipelineRun → Exec (App S) PipelineJob
    found_run none = raise (http_exception "404" "Not Found")
    found_run (some r) = do status ← lift (parse_status r.status); pure (job_of r status)

    -- get_pipeline_job
    unfoldable pub get_pipeline_job : String → Exec (App S) PipelineJob
    get_pipeline_job job_id a = elim (Jobs.get job_id a.jobs) [
      | some job ↦ (ok job, a)
      | none ↦
          if a.world.durable
          then (do r ← on_engine (on_store (Store.get_run fault job_id)); found_run r) a
          else (raised (http_exception "404" "Not Found"), a)
    ]

-- {role for role in roles if isinstance(role, str)}
abbrev pub texts : Items → List String
texts nil = []
texts (cons (text role) items) = role ∷ texts items
texts (cons _ items) = texts items

abbrev pub listed_roles : Option Json → List String
listed_roles (some (array items)) = texts items
listed_roles _ = []

-- `realm_access.get("roles", [])`, on an object
abbrev pub roles_of : Json → List String
roles_of (object fields) = listed_roles (get_key "roles" fields)
roles_of _ = []

-- `is True`
abbrev pub is_true : Option Json → Bool
is_true (some (bool true)) = true
is_true _ = false

-- `json_loads` is json.loads, with none for a JSONDecodeError.
module _ (json_loads : String → Option Json) where
  abbrev pub access_of : Option Json → List String
  access_of none = []
  access_of (some (text document)) = elim (json_loads document) [ none ↦ [] | some j ↦ roles_of j ]
  access_of (some j) = roles_of j

  -- _realm_roles
  unfoldable pub realm_roles : Fields → List String
  realm_roles payload = access_of (get_key "realm_access" payload)

  -- what require_pipeline_operator decides on the answer of the introspection
  unfoldable pub authorize : Fields → Outcome (Unit {0})
  authorize payload =
      if not (is_true (get_key "active" payload))
      then raised (http_exception "401" "Unauthorized")
      else if not (contains "pipeline_operator" (realm_roles payload))
      then raised (http_exception "403" "Forbidden")
      else ok tt

  -- require_pipeline_operator; `lower` is str.lower, and `introspect` asks Keycloak.
  module _ {S : Type 0} (lower : String → String) (introspect : String → Exec S Fields) where
    unfoldable pub require_pipeline_operator : Option (String × String) → Exec S (Unit {0})
    require_pipeline_operator none = raise (http_exception "401" "Unauthorized")
    require_pipeline_operator (some (scheme, token)) =
        if not (lower scheme == "bearer")
        then raise (http_exception "401" "Unauthorized")
        else do payload ← introspect token; lift (authorize payload)
