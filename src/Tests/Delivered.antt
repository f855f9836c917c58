-- ===== src/Tests/Delivered.antt =====
-- The theorem from the provider to the exchange, at a provider with two days of prices.
use stock_tracker_data_colle.Base.{
  ℕ, String, ◌≡◌, refl, sym, ap, false, none, List, [], ◌∷◌, ◌++◌, map, arith, All, length, true,
}
use stock_tracker_data_colle.Base.Texts.{strip, upper, lower, is_space, begins_like}
use stock_tracker_data_colle.Exec.{ok, pure, modify}
use stock_tracker_data_colle.Exec.Fallible.{Pairs}
use stock_tracker_data_colle.Config.{Settings, default_settings}
use stock_tracker_data_colle.Frames.{
  Frame, Identity, is_empty_frame, normalize_columns, clean_float, clean_datetime,
}
use stock_tracker_data_colle.Schemas.{StockPriceHistoryRecord, StockPriceHistorySync}
use stock_tracker_data_colle.Engine.{World}
use stock_tracker_data_colle.Pipelines.{Printer}
use stock_tracker_data_colle.Pipelines.MarketData.{chunks, price_history, sync_market_data}
use stock_tracker_data_colle.Pipelines.Chunks.{concat, IsChunk}
use stock_tracker_data_colle.Pipelines.Feed.{Message, a_history, Outside, fed, fetch, messages_of}
use stock_tracker_data_colle.Pipelines.Delivered.{sync_price_history-Delivered}
use stock_tracker_data_colle.Processors.MarketData.{
  transform_price_history, candle_of, parse_datetime, market_float, price_history_interval,
}
use stock_tracker_data_colle.Processors.Candles.{IsCandle}
use stock_tracker_data_colle.Vnstock.{Sdk, call, run_in_thread, checked_frame}
use stock_tracker_data_colle.Vnstock.Quotes.{quote_history}
use stock_tracker_data_colle.Vnstock.Extract.{extract, run_extract, history_frame}
use stock_tracker_data_colle.Rabbit.{
  Broker, ensure_connected, connect, open_channel, deliver, publish_message,
}
use stock_tracker_data_colle.Rabbit.Published.{Logs}
use stock_tracker_data_colle.Tests.{world}
use stock_tracker_data_colle.Tests.Provider
use stock_tracker_data_colle.Tests.Provider.{texts, table}

abbrev digest : List (Identity texts) → String
digest identity = "d"

abbrev prices : List (String × String)
prices =
    ("time", "2026-01-05")
    ∷ ("open", "1")
    ∷ ("high", "12")
    ∷ ("low", "1")
    ∷ ("close", "1")
    ∷ ("volume", "123")
    ∷ []

abbrev sdk : Sdk texts ℕ
sdk = record Provider.sdk {
  ohlcv = λ symbol start stop interval source.
      pure
        (table ("time" ∷ "open" ∷ "high" ∷ "low" ∷ "close" ∷ "volume" ∷ []) (prices ∷ prices ∷ []));
}

-- The state of the broker is the log of what it confirmed.
abbrev Log : Type 0
Log = List (String × String)

abbrev broker : Broker Log (Message texts)
broker = record {
  acquire = λ service. pure tt;
  connect_robust = λ url. pure 1;
  channel = λ connection. pure 2;
  declare_exchange = λ channel name ex_type. pure 3;
  publish = λ exchange body routing_key. modify λ log. log ++ (routing_key, body) ∷ [];
  close_channel = λ channel. pure tt;
  close_connection = λ connection. pure tt;
  dumps = λ m. "{}";
  dumps_all = λ ms. "[]";
}

keeps : Logs broker (λ log. log)
keeps = record {
  granted = λ service w. refl;
  connected = λ url w. refl;
  opened = λ connection w. refl;
  declared = λ channel name kind w. refl;
  confirmed = λ exchange body routing_key w w' done. ap (λ r. r.1) (sym done);
}

abbrev settings : Settings
settings = record default_settings { rabbitmq_enabled = true }

abbrev printer : Printer
printer = record { str = λ n. "2"; isoformat = λ n. "now"; dumps = λ fields. "{}" }

abbrev start : World (Outside ℕ Log)
start = record {
  durable = world.durable;
  database = world.database;
  locks = [];
  context = none;
  heartbeats = [];
  metrics = none;
  monotonic = 5;
  time = 1_000;
  outside = record {
    provider = 0;
    sink = record { connection = none; channel = none; exchange = none; world = [] };
  };
}

-- The operation at a chunk size of one.
abbrev finished : World (Outside ℕ Log)
finished =
    (sync_market_data (fed digest sdk broker settings none (λ types. pure []) printer) 1
      price_history "vic" 7 start).1

sync_price_history-Delivered_example :
    (df : Frame String) × (payloads : List (StockPriceHistorySync (StockPriceHistoryRecord texts)))
    × ((fetch digest sdk broker settings none price_history "vic" 0).0 ≡ ok df)
    × (is_empty_frame df ≡ false)
    × (2 ≡ length df.rows)
    × (finished.outside.sink.world
        ≡ [] ++ map (λ p. ("stock_price_history.sync", broker.dumps (a_history p))) payloads)
    × Pairs (IsCandle texts "1D") df.rows (concat (map (λ p. p.records) payloads))
    × All (λ p. IsChunk 1 p.records) payloads
unfolding sync_market_data fetch messages_of extract run_extract history_frame quote_history call
    run_in_thread checked_frame transform_price_history normalize_columns price_history_interval
    candle_of parse_datetime market_float clean_float clean_datetime begins_like chunks
    publish_message ensure_connected connect open_channel deliver strip upper lower is_space
sync_price_history-Delivered_example =
    sync_price_history-Delivered digest sdk broker settings none (λ types. pure []) printer
      (λ log. log) keeps refl 1 "vic" 7 2 start finished (omega arith) refl
