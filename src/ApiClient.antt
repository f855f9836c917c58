-- ===== src/ApiClient.antt =====
-- app/engine/stocktracker_api.py: StockTrackerApiClient, and app/plugins/sinks/rest_api_sink.py:
-- RestApiSink, which both send authenticated requests to the API.
pub mod Maps
pub mod Sent
use stock_tracker_data_colle.Base.{
  ℕ, String, Bool, true, false, not, ◌&&◌, Option, none, some, List, [], ◌∷◌, ◌==◌, if◌then◌else◌,
  contains, format, insert, lookup, exists, select, is_some,
}
use stock_tracker_data_colle.Errors.{Exn, source_error, sink_error, value_error}
use stock_tracker_data_colle.Exec.{Outcome, ok, raised, Exec, pure, raise, lift, ◌>>=◌, ◌>>◌}
use stock_tracker_data_colle.Json.{Json, Items, Fields, get_key, array, object, nil, cons}
use stock_tracker_data_colle.Http.{http_retry}

-- _IndustryApiRow and _StockApiRow, as pydantic validates them
pub record IndustryApiRow : Type 0 where
  pub id : ℕ
  pub code : String

pub record StockApiRow : Type 0 where
  pub id : ℕ
  pub symbol : String
  pub type : Option String

-- The settings and collaborators of the client and of the sink. A request is the URL, the token and
-- the body; its answer has passed raise_for_status().
pub record ApiDeps (S : Type 0) : Type 0 where
  -- str(settings.stocktracker_api_base_url).rstrip("/")
  pub base : String
  pub api_path_industries_all : String
  pub api_path_stocks_all : String
  pub api_path_industries_ingest : String
  pub api_path_stocks_ingest : String
  pub api_path_market_indices_ingest : String
  pub get_access_token : Exec S String
  -- self._rate_limiter.acquire("http")
  pub acquire : Exec S (Unit {0})
  pub get : String → String → Exec S Json
  pub put : String → String → Json → Exec S Json
  pub post : String → String → List Json → Exec S (Unit {0})
  -- model_validate of the two rows
  pub validate_industry : Json → Outcome IndustryApiRow
  pub validate_stock : Json → Outcome StockApiRow

-- for key in …: if the value is a list, it is returned
abbrev pub list_under : List String → Fields → Outcome Items
list_under [] fields = raised (value_error "Unexpected API response shape for list endpoint")
list_under (key ∷ keys) fields =
    let rest = list_under keys fields in
    elim (get_key key fields) [ some (array items) ↦ ok items | _ ↦ rest ]

-- _unwrap_list
unfoldable pub unwrap_list : Json → Outcome Items
unwrap_list (array items) = ok items
unwrap_list (object fields) = list_under ("items" ∷ "data" ∷ "results" ∷ []) fields
unwrap_list _ = raised (value_error "Unexpected API response shape for list endpoint")

-- [Row.model_validate(x) for x in items]
abbrev pub validate_all : {R : Type 0} → (Json → Outcome R) → Items → Outcome (List R)
validate_all validate nil = ok []
validate_all validate (cons x items) = elim (validate x) [
  | raised e ↦ raised e
  | ok row ↦ elim (validate_all validate items) [ raised e ↦ raised e | ok rows ↦ ok (row ∷ rows) ]
]

-- {key(r): id(r) for r in rows}, on top of the entries that are there
abbrev pub mapping :
    {R : Type 0} → (R → String) → (R → ℕ) → List R → List (String × ℕ) → List (String × ℕ)
mapping key id [] entries = entries
mapping key id (r ∷ rows) entries = mapping key id rows (insert (key r) (id r) entries)

-- row.type is None
abbrev pub lacks_type : StockApiRow → Bool
lacks_type r = not (is_some r.type)

-- row.type in stock_types
abbrev pub type_in : List String → StockApiRow → Bool
type_in stock_types r = elim r.type [ none ↦ false | some t ↦ contains t stock_types ]

-- `if stock_types is not None: …`
abbrev pub of_types : Option (List String) → List StockApiRow → Outcome (List StockApiRow)
of_types none rows = ok rows
of_types (some stock_types) rows =
    if exists lacks_type rows
    then raised (
        source_error
          "Stock API response is missing asset type; cannot select provider-compatible symbols")
    else ok (select (type_in stock_types) rows)

module _ {S : Type 0} (deps : ApiDeps S) where
  -- _get_json
  unfoldable pub get_json : String → Exec S Json
  get_json path = http_retry (do
    token ← deps.get_access_token
    deps.acquire
    deps.get (format (deps.base ∷ path ∷ [])) token)

  -- put_json of the client, and _put of the sink, which drops the answer
  unfoldable pub put_json : String → Json → Exec S Json
  put_json path body = http_retry (do
    token ← deps.get_access_token
    deps.acquire
    deps.put (format (deps.base ∷ path ∷ [])) token body)

  -- _post
  unfoldable pub post_batch : String → List Json → Exec S (Unit {0})
  post_batch path body = http_retry (do
    token ← deps.get_access_token
    deps.acquire
    deps.post (format (deps.base ∷ path ∷ [])) token body)

  -- what fetch_industry_code_to_id makes of the answer
  unfoldable pub industry_map : Json → Outcome (List (String × ℕ))
  industry_map raw = elim (unwrap_list raw) [
    | raised e ↦ raised e
    | ok items ↦ elim (validate_all deps.validate_industry items) [
      | raised e ↦ raised e
      | ok rows ↦ ok (mapping (λ r. r.code) (λ r. r.id) rows [])
    ]
  ]

  -- the rows of the stocks that the API answers
  unfoldable pub stock_rows : Json → Outcome (List StockApiRow)
  stock_rows raw = elim (unwrap_list raw) [
    | raised e ↦ raised e
    | ok items ↦ validate_all deps.validate_stock items
  ]

  -- what fetch_stock_symbol_to_id makes of the answer
  unfoldable pub stock_map : Option (List String) → Json → Outcome (List (String × ℕ))
  stock_map stock_types raw = elim (stock_rows raw) [
    | raised e ↦ raised e
    | ok rows ↦ elim (of_types stock_types rows) [
      | raised e ↦ raised e
      | ok selected ↦ ok (mapping (λ r. r.symbol) (λ r. r.id) selected [])
    ]
  ]

  -- fetch_industry_code_to_id
  unfoldable pub fetch_industry_code_to_id : Exec S (List (String × ℕ))
  fetch_industry_code_to_id = do
    raw ← get_json deps.api_path_industries_all
    lift (industry_map raw)

  -- fetch_stock_symbol_to_id
  unfoldable pub fetch_stock_symbol_to_id : Option (List String) → Exec S (List (String × ℕ))
  fetch_stock_symbol_to_id stock_types = do
    raw ← get_json deps.api_path_stocks_all
    lift (stock_map stock_types raw)

  -- `_paths` of the sink
  abbrev pub paths : List (String × String)
  paths =
      ("industries", deps.api_path_industries_ingest)
      ∷ ("stocks", deps.api_path_stocks_ingest)
      ∷ ("market_indices", deps.api_path_market_indices_ingest)
      ∷ []

  -- send_batch, where each item is the dumped model
  unfoldable pub send_batch : String → List Json → Exec S (Unit {0})
  send_batch entity items = elim (lookup entity paths) [
    | none ↦ raise (sink_error (format ("Unknown entity for RestApiSink: " ∷ entity ∷ [])))
    | some path ↦
        if path == ""
        then raise (sink_error (format ("Unknown entity for RestApiSink: " ∷ entity ∷ [])))
        else elim items [ [] ↦ pure tt | x ∷ xs ↦ post_batch path (x ∷ xs) ]
  ]

  -- send_put, where the body is the dumped model
  unfoldable pub send_put : String → Json → Exec S (Unit {0})
  send_put path body = do answer ← put_json path body; pure tt

  -- close of the sink
  unfoldable pub close : Exec S (Unit {0})
  close = pure tt
