-- ===== src/Pipelines/MarketData.antt =====
-- app/pipelines/vnstock_market_data_pipeline.py, and the chunks of
-- app/plugins/processors/market_data_processor.py.
use stock_tracker_data_colle.Base.{
  ℕ, zero, suc, ◌+◌, String, Bool, Option, some, List, [], ◌∷◌, map, ltb, eqb, format, length, take,
  drop, if◌then◌else◌,
}
use stock_tracker_data_colle.Errors.{Exn, sink_error, value_error}
use stock_tracker_data_colle.Exec.{
  Outcome, ok, raised, Exec, pure, raise, lift, try_finally, ◌>>=◌, ◌>>◌,
}
use stock_tracker_data_colle.Engine.{World, when, step, put_watermark}
use stock_tracker_data_colle.Pipelines.{Printer, stock_metadata, for_stocks, verdict}

-- range(start, stop, step); the fuel `stop` is enough, since the step is positive
abbrev pub range : ℕ → ℕ → ℕ → ℕ → List ℕ
range zero start stop step = []
range (suc fuel) start stop step =
    let rest = range fuel (start + step) stop step in if ltb start stop then start ∷ rest else []

-- _chunks
unfoldable pub chunks {ℓ} : {A : Type ℓ} → List A → ℕ → List (List A)
chunks items size = map (λ i. take size (drop i items)) (range (length items) 0 (length items) size)

-- MarketDataPandasProcessor.__init__
unfoldable pub checked_chunk_size : ℕ → Outcome ℕ
checked_chunk_size chunk_size =
    if ltb chunk_size 1 then raised (value_error "chunk_size must be positive") else ok chunk_size

-- the operations, in the order of the tuple
pub data Stream : Type 0 where
  price_history intraday : Stream

abbrev pub streams : List Stream
streams = price_history ∷ intraday ∷ []

-- operation.__name__.removeprefix("_sync_")
abbrev pub stream_name : Stream → String
stream_name price_history = "price_history"
stream_name intraday = "intraday"

-- VnstockMarketDataDeps, with what the pipeline calls of the source, the processor, the API and
-- the sink.
pub record MarketDataDeps (S : Type 0) : Type 1 where
  pub Frame : Type 0
  pub Message : Type 0
  -- len(df)
  pub rows : Frame → ℕ
  pub fetch_stock_symbol_to_id : List String → Exec (World S) (List (String × ℕ))
  -- source.extract(operation=…, symbol=…, interval=…)
  pub extract : Stream → String → Exec (World S) Frame
  -- processor.transform_price_history(stock_id, df, interval), transform_intraday(stock_id, df), of a
  -- processor with the chunk size
  pub transform : ℕ → Stream → ℕ → Frame → Outcome (List Message)
  pub routing_key : Stream → String
  -- rabbit.publish_message(routing_key, chunk), and rabbit.close()
  pub publish_message : String → Message → Exec (World S) (Unit {0})
  pub close : Exec (World S) (Unit {0})
  pub rabbitmq_enabled : Bool
  pub market_data_chunk_size : ℕ
  pub vnstock_quote_source : String
  pub printer : Printer

module _ {S : Type 0} (deps : MarketDataDeps S) where
  -- for chunk in chunks: await rabbit.publish_message(routing_key, chunk)
  abbrev pub publish_all : String → List deps.Message → Exec (World S) (Unit {0})
  publish_all routing_key [] = pure tt
  publish_all routing_key (chunk ∷ rest) = do
    deps.publish_message routing_key chunk
    publish_all routing_key rest

  -- _sync_price_history, _sync_intraday
  unfoldable pub sync_market_data : ℕ → Stream → String → ℕ → Exec (World S) ℕ
  sync_market_data chunk_size stream symbol stock_id = do
    df ← deps.extract stream symbol
    messages ← lift (deps.transform chunk_size stream stock_id df)
    publish_all (deps.routing_key stream) messages
    pure (deps.rows df)

  -- "data" if row_count else "empty"
  abbrev pub cursor : ℕ → ℕ → String
  cursor now row_count = deps.printer.dumps (
      ("completed_at", deps.printer.isoformat now)
      ∷ ("count", deps.printer.str row_count)
      ∷ ("state", if eqb row_count 0 then "empty" else "data")
      ∷ [])

  module _ (fault : ℕ → Option Exn) where
    -- the body of the inner loop
    unfoldable pub sync_stream : ℕ → String → ℕ → Stream → Exec (World S) (Unit {0})
    sync_stream chunk_size symbol stock_id stream =
        step fault (format (stream_name stream ∷ ":" ∷ symbol ∷ []))
          (stock_metadata deps.printer symbol stock_id (stream_name stream))
          λ should_run. when should_run (do
            row_count ← sync_market_data chunk_size stream symbol stock_id
            λ w.
                put_watermark fault (stream_name stream) symbol (cursor w.time row_count)
                  (some deps.vnstock_quote_source) w)

    abbrev pub market_data_operations : ℕ → String → ℕ → List (Exec (World S) (Unit {0}))
    market_data_operations chunk_size symbol stock_id =
        map (sync_stream chunk_size symbol stock_id) streams

    -- the `try` block of run_vnstock_market_data
    abbrev pub sync_all : ℕ → Exec (World S) (Unit {0})
    sync_all chunk_size = do
      stock_map ← deps.fetch_stock_symbol_to_id ("STOCK" ∷ "ETF" ∷ [])
      failures ← for_stocks (market_data_operations chunk_size) stock_map 0
      verdict deps.printer "Market data" failures

    -- run_vnstock_market_data
    unfoldable pub run_vnstock_market_data : Exec (World S) (Unit {0})
    run_vnstock_market_data =
        if deps.rabbitmq_enabled
        then (do
          chunk_size ← lift (checked_chunk_size deps.market_data_chunk_size)
          try_finally (sync_all chunk_size) deps.close)
        else raise (sink_error "Market data pipeline requires rabbitmq_enabled=True")
