-- ===== src/Pipelines/Feed.antt =====
-- The market data pipeline with its source, its processor and its sink: the dependencies are those of
-- VnstockSource, MarketDataPandasProcessor and RabbitMQSink. What the source and its limiter change is
-- apart from what the sink and its limiter change.
use stock_tracker_data_colle.Base.{ℕ, String, Option, List, [], ◌∷◌, map, length}
use stock_tracker_data_colle.Errors.{source_error}
use stock_tracker_data_colle.Exec.{Outcome, ok, raised, Exec, pure, raise, zoom, ◌>>=◌}
use stock_tracker_data_colle.Config.{Settings}
use stock_tracker_data_colle.Frames.{Pandas, Frame, Identity}
use stock_tracker_data_colle.Schemas.{
  StockPriceHistoryRecord, StockPriceHistorySync, StockIntradayRecord, StockIntradaySync,
}
use stock_tracker_data_colle.Engine.{World}
use stock_tracker_data_colle.Pipelines.{Printer}
use stock_tracker_data_colle.Pipelines.MarketData.{Stream, price_history, intraday, MarketDataDeps}
use stock_tracker_data_colle.Processors.MarketData.{transform_price_history, transform_intraday}
use stock_tracker_data_colle.Vnstock.{Sdk}
use stock_tracker_data_colle.Vnstock.Extract.{
  Extracted, a_frame, a_series, baskets, Kwargs, extract,
}
use stock_tracker_data_colle.Rabbit.{Broker, RabbitMqSink, publish_message, close}

-- The two kinds of messages.
pub data Message (pd : Pandas) : Type 0 where
  a_history : StockPriceHistorySync (StockPriceHistoryRecord pd) → Message pd
  an_intraday : StockIntradaySync (StockIntradayRecord pd) → Message pd

-- What the source changes, and the sink.
pub record Outside (V W : Type 0) : Type 0 where
  pub provider : V
  pub sink : RabbitMqSink W

abbrev pub mapped : {A B : Type 0} → (A → B) → Outcome (List A) → Outcome (List B)
mapped f (ok xs) = ok (map f xs)
mapped f (raised e) = raised e

module _ {V W : Type 0} where
  abbrev pub on_provider : {A : Type 0} → Exec V A → Exec (World (Outside V W)) A
  on_provider =
      zoom (λ w. w.outside.provider)
        (λ v w. record w { outside = record w.outside { provider = v } })

  abbrev pub on_sink : {A : Type 0} → Exec (RabbitMqSink W) A → Exec (World (Outside V W)) A
  on_sink = zoom (λ w. w.outside.sink) (λ s w. record w { outside = record w.outside { sink = s } })

module _ {pd : Pandas} (digest : List (Identity pd) → String) {V W : Type 0} (sdk : Sdk pd V)
    (broker : Broker W (Message pd)) (settings : Settings)
    (archive : Option (String → Extracted pd → Option String → Kwargs → Exec V (Unit {0}))) where
  -- the result of a quote operation is a frame
  abbrev pub as_frame : Extracted pd → Exec V (Frame pd.Cell)
  as_frame (a_frame df) = pure df
  as_frame (a_series members) = raise (source_error "not a frame")
  as_frame (baskets rows) = raise (source_error "not a frame")

  -- source.extract of _sync_price_history and of _sync_intraday
  unfoldable pub fetch : Stream → String → Exec V (Frame pd.Cell)
  fetch price_history symbol = do
    result ←
        extract sdk settings archive "quote_history"
          (("symbol", symbol) ∷ ("interval", settings.vnstock_price_history_interval) ∷ [])
    as_frame result
  fetch intraday symbol = do
    result ← extract sdk settings archive "quote_intraday" (("symbol", symbol) ∷ [])
    as_frame result

  -- processor.transform_price_history and processor.transform_intraday
  unfoldable pub messages_of : ℕ → Stream → ℕ → Frame pd.Cell → Outcome (List (Message pd))
  messages_of chunk_size price_history stock_id df =
      mapped a_history
        (transform_price_history pd chunk_size stock_id df settings.vnstock_price_history_interval)
  messages_of chunk_size intraday stock_id df =
      mapped an_intraday (transform_intraday pd digest chunk_size stock_id df)

  -- the routing keys of the settings
  abbrev pub routing_key_of : Stream → String
  routing_key_of price_history = settings.rabbitmq_routing_key_price_history
  routing_key_of intraday = settings.rabbitmq_routing_key_intraday

  -- the dependencies of run_vnstock_market_data; the API client stays a parameter
  abbrev pub fed :
      (List String → Exec (World (Outside V W)) (List (String × ℕ)))
      → Printer
      → MarketDataDeps (Outside V W)
  fed fetch_stock_symbol_to_id printer = record {
    Frame = Frame pd.Cell;
    Message = Message pd;
    rows = λ df. length df.rows;
    fetch_stock_symbol_to_id = fetch_stock_symbol_to_id;
    extract = λ stream symbol. on_provider (fetch stream symbol);
    transform = messages_of;
    routing_key = routing_key_of;
    publish_message =
        λ routing_key message. on_sink (publish_message broker settings routing_key message);
    close = on_sink (close broker settings);
    rabbitmq_enabled = settings.rabbitmq_enabled;
    market_data_chunk_size = settings.market_data_chunk_size;
    vnstock_quote_source = settings.vnstock_quote_source;
    printer = printer;
  }
