-- ===== src/Tests/Http.antt =====
-- The theorems on the HTTP clients, at a network that fails once and a client that is made up.
use stock_tracker_data_colle.Base.{
  ℕ, zero, suc, ◌+◌, ◌≡◌, refl, String, false, Option, none, some, arith, List, [], ◌∷◌, ◌++◌, inl,
  inr,
}
use stock_tracker_data_colle.Errors.{transport_error}
use stock_tracker_data_colle.Exec.{ok, raised, Exec, pure}
use stock_tracker_data_colle.Json.{Fields, text, number, null, field, end}
use stock_tracker_data_colle.Http.{
  AuthManager, KeycloakClient, http_retry, get_access_token, fetch_token,
}
use stock_tracker_data_colle.Http.Token.{get_access_token-get_access_token}
use stock_tracker_data_colle.ApiClient.{ApiDeps, send_batch, post_batch}
use stock_tracker_data_colle.ApiClient.Sent.{Request, Sends, SendsBatch, send_batch-SendsBatch}

-- A call that fails in transport while its counter is positive.
abbrev flaky : Exec ℕ String
flaky zero = (ok "done", zero)
flaky (suc n) = (raised (transport_error "reset"), n)

abbrev answer : Fields
answer = field "access_token" (text "t1") (field "expires_in" (number "60") end)

abbrev keycloak : KeycloakClient ℕ
keycloak = record {
  keycloak_client_secret = "s";
  keycloak_token_skew_seconds = 30;
  acquire = pure tt;
  post_token = λ n. (ok answer, (n.0 + 2, suc n.1));
  post_introspect = λ token. pure null;
  to_ticks = λ j. some 60;
  default_ttl = 300;
  owns_client = false;
  aclose = pure tt;
}

abbrev manager : ℕ → Option String → ℕ → ℕ → AuthManager ℕ
manager now token expires n = record {
  token = token;
  expires_at_monotonic = expires;
  monotonic = now;
  outside = n;
}

get_access_token-get_access_token_example :
    get_access_token keycloak (manager 131 (some "t1") 162 1)
    ≡ (ok "t1", manager 131 (some "t1") 162 1)
unfolding get_access_token fetch_token http_retry
get_access_token-get_access_token_example =
    get_access_token-get_access_token keycloak (manager 100 none 0 0)
      (manager 102 (some "t1") 162 1) "t1" 131 refl (omega arith)

-- A network that breaks off as many POSTs as its counter says, after they reached the API.
abbrev broken_off : Request → Exec (ℕ × List Request) (Unit {0})
broken_off request (zero, requests) = (ok tt, (zero, requests ++ request ∷ []))
broken_off request (suc n, requests) =
    (raised (transport_error "reset"), (n, requests ++ request ∷ []))

abbrev api : ApiDeps (ℕ × List Request)
api = record {
  base = "http://api";
  api_path_industries_all = "/industries";
  api_path_stocks_all = "/stocks";
  api_path_industries_ingest = "/industries/ingest";
  api_path_stocks_ingest = "/stocks/ingest";
  api_path_market_indices_ingest = "/indices/ingest";
  get_access_token = pure "t1";
  acquire = pure tt;
  get = λ url token. pure null;
  put = λ url token body. pure null;
  post = λ url token body. broken_off (url, body);
  validate_industry = λ j. ok (record { id = 1; code = "8300" });
  validate_stock = λ j. ok (record { id = 7; symbol = "VIC"; type = some "STOCK" });
}

abbrev requests_of : ℕ × List Request → List Request
requests_of s = s.1

broken_off-Sends :
    (request : Request) (s : ℕ × List Request)
    → Sends requests_of request 1 s (broken_off request s)
broken_off-Sends request (zero, requests) = (1, omega arith, refl, inr (omega arith))
broken_off-Sends request (suc n, requests) = (1, omega arith, refl, inl refl)

send_stocks : send_batch api "stocks" (text "VIC" ∷ []) (1, []) ≡ (
  ok tt,
  (
    0,
    ("http://api/stocks/ingest", text "VIC" ∷ [])
        ∷ ("http://api/stocks/ingest", text "VIC" ∷ [])
        ∷ [],
  ),
)
unfolding send_batch post_batch http_retry
send_stocks = refl

send_batch-SendsBatch_example : SendsBatch api requests_of "stocks" (text "VIC" ∷ []) (1, [])
send_batch-SendsBatch_example =
    send_batch-SendsBatch api requests_of (λ s. refl) (λ s. refl)
      (λ url token body s. broken_off-Sends (url, body) s) "stocks" (text "VIC" ∷ []) (1, [])
