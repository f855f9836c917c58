-- ===== src/Http/Token.antt =====
-- The cached token.
use stock_tracker_data_colle.Json.{Json, Fields, get_key, null, bool, number, text, array, object}
use stock_tracker_data_colle.Base.{
  ℕ, ◌+◌, ◌<◌, String, ◌≡◌, refl, false, Option, none, some, arith, inl, inr, ◌==◌, Option-cases,
  Bool-cases, subst,
}
use stock_tracker_data_colle.Exec.{Outcome, ok, Outcome-cases, Returns}
use stock_tracker_data_colle.Http.{
  AuthManager, KeycloakClient, get_access_token, fetch_token, access_token, remember, refresh,
  is_fresh,
}

module _ {S : Type 0} (client : KeycloakClient S) where
  access_token-ok :
      (j : Option Json) (access : String)
      → access_token client j ≡ ok access
      → (access == "") ≡ false
  access_token-ok none access h = ground arith
  access_token-ok (some (text t)) access h = ground arith
  access_token-ok (some null) access h = ground arith
  access_token-ok (some (bool b)) access h = ground arith
  access_token-ok (some (number n)) access h = ground arith
  access_token-ok (some (array items)) access h = ground arith
  access_token-ok (some (object fields)) access h = ground arith

  abbrev IsRemembered : AuthManager S → Outcome String → Type 0
  IsRemembered a = Returns (λ access. (a.token ≡ some access) × ((access == "") ≡ false))

  remember-IsRemembered :
      (payload : Fields) (a : AuthManager S)
      → IsRemembered (remember client payload a).1 (remember client payload a).0
  remember-IsRemembered payload a =
      elim (Outcome-cases (access_token client (get_key "access_token" payload))) [
        | inl (access, found) ↦
            rw (found, remember)
              (refl, access_token-ok (get_key "access_token" payload) access found)
        | inr (e, failed) ↦ rw (failed, remember) tt
      ]

  refresh-IsRemembered :
      (a : AuthManager S) → IsRemembered (refresh client a).1 (refresh client a).0
  refresh-IsRemembered a = elim (Outcome-cases (fetch_token client a).0) [
    | inl (payload, found) ↦
        rw (found, refresh) (remember-IsRemembered payload (fetch_token client a).1)
    | inr (e, failed) ↦ rw (failed, refresh) tt
  ]

  -- What a call returns is the token that is remembered after it.
  get_access_token-IsRemembered :
      (a : AuthManager S) → IsRemembered (get_access_token client a).1 (get_access_token client a).0
  unfolding get_access_token
  get_access_token-IsRemembered a = elim (Option-cases a.token) [
    | inl absent ↦ rw (absent, get_access_token) (refresh-IsRemembered a)
    | inr (access, cached) ↦ elim (Bool-cases (access == "")) [
      | inl empty ↦ rw (cached, empty, get_access_token) (refresh-IsRemembered a)
      | inr given ↦ elim (Bool-cases (is_fresh client a)) [
        | inl fresh ↦ rw (cached, given, fresh, get_access_token) (cached, given)
        | inr stale ↦ rw (cached, given, stale, get_access_token) (refresh-IsRemembered a)
      ]
    ]
  ]

  -- A token that a call returns is returned again, without any request, by a call at any later time
  -- that is earlier than its expiry by more than the skew.
  pub get_access_token-get_access_token :
      (a b : AuthManager S) (access : String) (later : ℕ)
      → get_access_token client a ≡ (ok access, b)
      → later + client.keycloak_token_skew_seconds < b.expires_at_monotonic
      → get_access_token client (record b { monotonic = later })
        ≡ (ok access, record b { monotonic = later })
  unfolding get_access_token
  get_access_token-get_access_token a b access later returned early =
      let kept : IsRemembered b (ok access) =
        subst (λ r. IsRemembered r.1 r.0) returned (get_access_token-IsRemembered a) in
      ground (arith, kept.0, kept.1)
