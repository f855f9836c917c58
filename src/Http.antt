-- ===== src/Http.antt =====
-- app/engine/retry.py, and the token cache of app/engine/keycloak_auth.py. The time that tenacity
-- waits between two attempts is left out.
pub mod Retry
pub mod Token
use stock_tracker_data_colle.Base.{
  ℕ, zero, suc, ◌+◌, ltb, String, Bool, true, false, ◌&&◌, not, Option, none, some, List, [], ◌==◌,
  if◌then◌else◌,
}
use stock_tracker_data_colle.Errors.{Exn, transport_error, configuration_error}
use stock_tracker_data_colle.Exec.{Outcome, ok, raised, Exec, pure, raise, zoom, ◌>>=◌, ◌>>◌}
use stock_tracker_data_colle.Json.{Json, Fields, get_key, null, bool, number, text, array, object}

-- retry_if_exception_type((…))
abbrev pub is_retried {ℓ} : {A : Type ℓ} → Outcome A → Bool
is_retried (raised (transport_error m)) = true
is_retried _ = false

module _ {ℓ κ} {S : Type ℓ} {A : Type κ} where
  -- The calls of the decorated method: one, and `more` others at most while it is retried. The
  -- exception of the last call is raised as it is.
  abbrev pub attempts : ℕ → Exec S A → Exec S A
  attempts zero call s = call s
  attempts (suc more) call s =
      let (outcome, after) = call s in
      let retried = attempts more call after in
      if is_retried outcome then retried else (outcome, after)

  -- stop_after_attempt(5)
  unfoldable pub http_retry : Exec S A → Exec S A
  http_retry = attempts 4

-- KeycloakAuthManager, with the clock and what its HTTP client and its rate limiter change.
pub record AuthManager (S : Type 0) : Type 0 where
  pub token : Option String
  pub expires_at_monotonic : ℕ
  -- time.monotonic()
  pub monotonic : ℕ
  pub outside : S

-- The HTTP client and the rate limiter: each call also takes time.
pub record KeycloakClient (S : Type 0) : Type 0 where
  pub keycloak_client_secret : String
  pub keycloak_token_skew_seconds : ℕ
  -- self._rate_limiter.acquire("http")
  pub acquire : Exec (ℕ × S) (Unit {0})
  -- the POST to the token URL, raise_for_status() and json()
  pub post_token : Exec (ℕ × S) Fields
  -- the POST to the introspection URL, with the token
  pub post_introspect : String → Exec (ℕ × S) Json
  -- float(…) of a JSON value in ticks of the clock, none where it raises TypeError or ValueError; a
  -- lifetime that is not positive is 0
  pub to_ticks : Json → Option ℕ
  -- 300.0 seconds
  pub default_ttl : ℕ
  -- whether the manager made its HTTP client itself, and the client's aclose()
  pub owns_client : Bool
  pub aclose : Exec (ℕ × S) (Unit {0})

module _ {S : Type 0} (client : KeycloakClient S) where
  abbrev pub on_network : {A : Type 0} → Exec (ℕ × S) A → Exec (AuthManager S) A
  on_network =
      zoom (λ a. (a.monotonic, a.outside)) (λ n a. record a { monotonic = n.0; outside = n.1 })

  -- _fetch_token
  unfoldable pub fetch_token : Exec (AuthManager S) Fields
  fetch_token = http_retry (
      if client.keycloak_client_secret == ""
      then raise (configuration_error "keycloak_client_secret is required for M2M")
      else (do on_network client.acquire; on_network client.post_token))

  -- `not access or not isinstance(access, str)`
  abbrev pub access_token : Option Json → Outcome String
  access_token (some (text access)) =
      if access == ""
      then raised (configuration_error "Keycloak response missing access_token")
      else ok access
  access_token _ = raised (configuration_error "Keycloak response missing access_token")

  -- float(payload.get("expires_in", 300)), or 300.0
  abbrev pub ttl_of : Option Json → ℕ
  ttl_of none = client.default_ttl
  ttl_of (some expires_in) = elim (client.to_ticks expires_in) [
    | none ↦ client.default_ttl
    | some ttl ↦ ttl
  ]

  -- what get_access_token does with the payload
  abbrev pub remember : Fields → Exec (AuthManager S) String
  remember payload a = elim (access_token (get_key "access_token" payload)) [
    | raised e ↦ (raised e, a)
    | ok access ↦ (
      ok access,
      record a {
        token = some access;
        expires_at_monotonic = a.monotonic + ttl_of (get_key "expires_in" payload);
      },
    )
  ]

  -- `now < expires_at - skew`, without a negative difference
  abbrev pub is_fresh : AuthManager S → Bool
  is_fresh a = ltb (a.monotonic + client.keycloak_token_skew_seconds) a.expires_at_monotonic

  abbrev pub refresh : Exec (AuthManager S) String
  refresh = do payload ← fetch_token; remember payload

  -- get_access_token
  unfoldable pub get_access_token : Exec (AuthManager S) String
  get_access_token a = elim a.token [
    | none ↦ refresh a
    | some access ↦ if not (access == "") && is_fresh a then (ok access, a) else refresh a
  ]

  -- introspect
  unfoldable pub introspect : String → Exec (AuthManager S) Fields
  introspect token =
      if client.keycloak_client_secret == ""
      then raise (configuration_error "keycloak_client_secret is required for token introspection")
      else do
        on_network client.acquire
        payload ← on_network (client.post_introspect token)
        object_of payload
    where
      object_of : Json → Exec (AuthManager S) Fields
      object_of (object fields) = pure fields
      object_of _ = raise (configuration_error "Keycloak introspection response must be an object")

  -- close
  unfoldable pub close : Exec (AuthManager S) (Unit {0})
  close = if client.owns_client then on_network client.aclose else pure tt
