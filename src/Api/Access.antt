-- ===== src/Api/Access.antt =====
-- Who may call the endpoints of the pipelines.
use stock_tracker_data_colle.Base.{
  String, ◌≡◌, refl, true, false, inl, inr, Option, none, some, arith, contains, eq_iff,
}
use stock_tracker_data_colle.Exec.{Exec, ok, is_ok, Outcome-cases}
use stock_tracker_data_colle.Json.{Json, Fields, get_key, bool, null, number, text, array, object}
use stock_tracker_data_colle.Api.{authorize, realm_roles, require_pipeline_operator, is_true}

is_true-bool : (j : Option Json) → is_true j ≡ true → j ≡ some (bool true)
is_true-bool none h = cc
is_true-bool (some (bool true)) h = refl
is_true-bool (some (bool false)) h = cc
is_true-bool (some null) h = cc
is_true-bool (some (number n)) h = cc
is_true-bool (some (text t)) h = cc
is_true-bool (some (array items)) h = cc
is_true-bool (some (object fields)) h = cc

authorize-ok :
    (json_loads : String → Option Json) (payload : Fields)
    → is_ok (authorize json_loads payload) ≡ true
    → (get_key "active" payload ≡ some (bool true))
      × (contains "pipeline_operator" (realm_roles json_loads payload) ≡ true)
unfolding authorize
authorize-ok json_loads payload h = ground (arith, is_true-bool (get_key "active" payload))

-- A caller passes the check only with a bearer token that Keycloak reports as active, and whose
-- realm roles name the operator.
pub require_pipeline_operator_safe :
    {S : Type 0} (json_loads : String → Option Json) (lower : String → String)
    (introspect : String → Exec S Fields) (credentials : Option (String × String)) (s : S)
    → is_ok (require_pipeline_operator json_loads lower introspect credentials s).0 ≡ true
    → (scheme : String) × (token : String) × (payload : Fields) × (credentials
        ≡ some (scheme, token))
      × (lower scheme ≡ "bearer")
      × ((introspect token s).0 ≡ ok payload)
      × (get_key "active" payload ≡ some (bool true))
      × (contains "pipeline_operator" (realm_roles json_loads payload) ≡ true)
unfolding require_pipeline_operator
require_pipeline_operator_safe json_loads lower introspect none s h = cc
require_pipeline_operator_safe json_loads lower introspect (some (scheme, token)) s h =
    elim (Outcome-cases (introspect token s).0) [
      | inl (payload, answered) ↦
          let admitted = authorize-ok json_loads payload (ground (arith, answered)) in
          (
            scheme,
            token,
            payload,
            refl,
            ground (arith, eq_iff (lower scheme) "bearer"),
            answered,
            admitted.0,
            admitted.1,
          )
      | inr (e, failed) ↦ ground (arith, failed)
    ]
