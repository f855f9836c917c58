-- ===== src/Pipelines/Company.antt =====
-- app/pipelines/vnstock_company_pipeline.py.
use stock_tracker_data_colle.Base.{
  ℕ, eqb, String, Bool, false, not, ◌||◌, Option, some, List, [], ◌∷◌, map, format, if◌then◌else◌,
  eqb,
}
use stock_tracker_data_colle.Errors.{Exn, source_error}
use stock_tracker_data_colle.Exec.{Outcome, Exec, raise, lift, ◌>>=◌, ◌>>◌}
use stock_tracker_data_colle.Engine.{World, when, step, put_watermark}
use stock_tracker_data_colle.Pipelines.{Printer, stock_metadata, for_stocks, verdict}

-- the operations, in the order of the tuple `operations`
pub data Stream : Type 0 where
  profile shareholders officers affiliations events news : Stream

abbrev pub streams : List Stream
streams = profile ∷ shareholders ∷ officers ∷ affiliations ∷ events ∷ news ∷ []

-- operation.__name__.removeprefix("_sync_company_")
abbrev pub stream_name : Stream → String
stream_name profile = "profile"
stream_name shareholders = "shareholders"
stream_name officers = "officers"
stream_name affiliations = "affiliations"
stream_name events = "events"
stream_name news = "news"

-- the operation that the source extracts
abbrev pub source_operation : Stream → String
source_operation profile = "company_overview"
source_operation shareholders = "company_shareholders"
source_operation officers = "company_officers"
source_operation affiliations = "company_subsidiaries"
source_operation events = "company_events"
source_operation news = "company_news"

-- how the refusal of a snapshot names the entity
abbrev pub entity_name : Stream → String
entity_name profile = "Profile"
entity_name shareholders = "Shareholder"
entity_name officers = "Officer"
entity_name affiliations = "Affiliation"
entity_name events = "Event"
entity_name news = "News"

-- VnstockCompanyDeps, with what the pipeline calls of the source, the processor, the API and the
-- sink. The processor's transformations are one function of the stream.
pub record CompanyDeps (S : Type 0) : Type 1 where
  pub Frame : Type 0
  pub Payload : Type 0
  -- len(df) and len(payload.items)
  pub rows : Frame → ℕ
  pub items : Payload → ℕ
  pub fetch_stock_symbol_to_id : List String → Exec (World S) (List (String × ℕ))
  pub extract : String → String → Exec (World S) Frame
  pub transform : Stream → ℕ → Frame → String → Outcome Payload
  -- settings.api_path_company_…_sync.format(stock_id=…)
  pub path : Stream → ℕ → String
  pub send_put : String → Payload → Exec (World S) (Unit {0})
  pub vnstock_company_source : String
  pub printer : Printer

-- the guard of the five snapshots: `if not payload.items or len(payload.items) != len(df)`
abbrev pub is_incomplete : Stream → ℕ → ℕ → Bool
is_incomplete profile items rows = false
is_incomplete _ items rows = eqb items 0 || not (eqb items rows)

module _ {S : Type 0} (deps : CompanyDeps S) where
  abbrev pub send_snapshot : Stream → ℕ → deps.Frame → deps.Payload → Exec (World S) (Unit {0})
  send_snapshot stream stock_id df payload =
      if is_incomplete stream (deps.items payload) (deps.rows df)
      then raise (
          source_error (
            format (
              entity_name stream
              ∷ " snapshot has no valid rows or is incomplete; refusing sync"
              ∷ [])))
      else deps.send_put (deps.path stream stock_id) payload

  -- _sync_company_profile, _sync_company_shareholders, _sync_company_officers,
  -- _sync_company_affiliations, _sync_company_events, _sync_company_news
  unfoldable pub sync_company : Stream → String → ℕ → Exec (World S) (Unit {0})
  sync_company stream symbol stock_id = do
    df ← deps.extract (source_operation stream) symbol
    payload ← lift (deps.transform stream stock_id df symbol)
    send_snapshot stream stock_id df payload

  abbrev pub cursor : ℕ → String
  cursor now =
      deps.printer.dumps (("completed_at", deps.printer.isoformat now) ∷ ("state", "data") ∷ [])

  module _ (fault : ℕ → Option Exn) where
    -- the body of the inner loop
    unfoldable pub sync_stream : String → ℕ → Stream → Exec (World S) (Unit {0})
    sync_stream symbol stock_id stream =
        step fault (format (stream_name stream ∷ ":" ∷ symbol ∷ []))
          (stock_metadata deps.printer symbol stock_id (stream_name stream))
          λ should_run. when should_run (do
            sync_company stream symbol stock_id
            λ w.
                put_watermark fault (stream_name stream) symbol (cursor w.time)
                  (some deps.vnstock_company_source) w)

    abbrev pub company_operations : String → ℕ → List (Exec (World S) (Unit {0}))
    company_operations symbol stock_id = map (sync_stream symbol stock_id) streams

    -- run_vnstock_company
    unfoldable pub run_vnstock_company : Exec (World S) (Unit {0})
    run_vnstock_company = do
      stock_map ← deps.fetch_stock_symbol_to_id ("STOCK" ∷ [])
      failures ← for_stocks company_operations stock_map 0
      verdict deps.printer "Company" failures
