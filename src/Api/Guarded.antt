-- ===== src/Api/Guarded.antt =====
-- What the routes do for a caller who is not an operator.
use stock_tracker_data_colle.Base.{String, ◌≡◌, Bool, true, false, ◌⊎◌, Option, some, contains}
use stock_tracker_data_colle.Errors.{Exn}
use stock_tracker_data_colle.Exec.{Outcome, ok, raised, Exec}
use stock_tracker_data_colle.Control.Schema.{Database}
use stock_tracker_data_colle.Control.Store
use stock_tracker_data_colle.Json.{Json, Fields, get_key, bool}
use stock_tracker_data_colle.Jobs.{JobRegistry}
use stock_tracker_data_colle.Api.{App, realm_roles}
use stock_tracker_data_colle.Api.Routes.{
  Reply, Probes, alive, readiness, exposition, accepted, found,
}

module _ {S : Type 0} (json_loads : String → Option Json) (lower : String → String)
    (introspect : String → Exec S Fields) where
  -- The caller has a bearer token that Keycloak reports as active, with the role of an operator.
  abbrev pub IsOperator : Option (String × String) → App S → Type 0
  IsOperator credentials a =
      (scheme : String) × (token : String) × (payload : Fields) × (credentials
        ≡ some (scheme, token))
      × (lower scheme ≡ "bearer")
      × ((introspect token a.world.outside).0 ≡ ok payload)
      × (get_key "active" payload ≡ some (bool true))
      × (contains "pipeline_operator" (realm_roles json_loads payload) ≡ true)

  -- the registry of the jobs and the database, without the count of its queries
  abbrev pub kept : App S → JobRegistry × Database
  kept a = (a.jobs, record a.world.database { queries = 0 })

module _ {S : Type 0} (probes : Probes S) (json_loads : String → Option Json)
    (lower : String → String) (introspect : String → Exec S Fields) where
  abbrev kept_of : App S → JobRegistry × Database
  kept_of = kept json_loads lower introspect

  -- What the three routes without a check answer with: a probe, or the text of the metrics.
  abbrev pub is_public : Reply → Bool
  is_public alive = true
  is_public (readiness passed checks) = true
  is_public (exposition text) = true
  is_public (accepted response) = false
  is_public (found known) = false

  -- Actions that leave the jobs and the database as they are.
  abbrev Keeps : {A : Type 0} → Exec (App S) A → Type 0
  Keeps m = (a : App S) → kept_of (m a).1 ≡ kept_of a

  -- An answer of a public route, or an exception.
  abbrev pub IsPublic : Outcome Reply → Type 0
  IsPublic outcome =
      ((reply : Reply) × (outcome ≡ ok reply) × (is_public reply ≡ true))
      ⊎ ((e : Exn) × (outcome ≡ raised e))
