-- ===== src/Pipelines/Listing.antt =====
-- app/pipelines/vnstock_listing_pipeline.py.
use stock_tracker_data_colle.Base.{ℕ, String, Option, some, List, [], ◌∷◌}
use stock_tracker_data_colle.Errors.{Exn}
use stock_tracker_data_colle.Exec.{Outcome, Exec, lift, ◌>>=◌, ◌>>◌}
use stock_tracker_data_colle.Engine.{World, when, step, put_watermark}
use stock_tracker_data_colle.Pipelines.{Printer}

-- VnstockListingDeps, with what the pipeline calls of the source, the processor, the API and the
-- sink. A batch is the list of models that a transformation returns.
pub record ListingDeps (S : Type 0) : Type 1 where
  pub Frame : Type 0
  pub Batch : Type 0
  -- len(batch)
  pub count : Batch → ℕ
  pub extract : String → Exec (World S) Frame
  pub fetch_industry_code_to_id : Exec (World S) (List (String × ℕ))
  pub fetch_stock_symbol_to_id : Exec (World S) (List (String × ℕ))
  pub transform_industries : Frame → Outcome Batch
  pub transform_stocks : Frame → List (String × ℕ) → Outcome Batch
  pub transform_market_indices : Frame → List (String × ℕ) → Outcome Batch
  pub send_batch : String → Batch → Exec (World S) (Unit {0})
  pub vnstock_listing_source : String
  pub vnstock_indices_source : String
  pub printer : Printer

module _ {S : Type 0} (deps : ListingDeps S) where
  abbrev pub cursor : ℕ → ℕ → String
  cursor now count = deps.printer.dumps (
      ("completed_at", deps.printer.isoformat now)
      ∷ ("count", deps.printer.str count)
      ∷ ("state", "data")
      ∷ [])

  module _ (fault : ℕ → Option Exn) where
    -- One of the three steps: extract, transform, send, and set the watermark of the entity.
    unfoldable pub sync_catalog :
        String → String → (deps.Frame → Outcome deps.Batch) → String → Exec (World S) (Unit {0})
    sync_catalog entity operation transform source = do
      df ← deps.extract operation
      batch ← lift (transform df)
      deps.send_batch entity batch
      λ w. put_watermark fault entity "catalog" (cursor w.time (deps.count batch)) (some source) w

    -- run_vnstock_listing
    unfoldable pub run_vnstock_listing : Exec (World S) (Unit {0})
    run_vnstock_listing = do
      step fault "industries.sync" "{}" λ should_run.
          when should_run
            (sync_catalog "industries" "industries_icb" deps.transform_industries "VCI")
      industry_map ← deps.fetch_industry_code_to_id
      step fault "stocks.sync" "{}" λ should_run. when should_run (
          sync_catalog "stocks" "symbols_by_exchange" (λ df. deps.transform_stocks df industry_map)
            deps.vnstock_listing_source)
      stock_map ← deps.fetch_stock_symbol_to_id
      step fault "market_indices.sync" "{}" λ should_run. when should_run (
          sync_catalog "market_indices" "indices_catalog"
            (λ baskets. deps.transform_market_indices baskets stock_map)
            deps.vnstock_indices_source)
