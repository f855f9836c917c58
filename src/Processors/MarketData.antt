-- ===== src/Processors/MarketData.antt =====
-- app/plugins/processors/market_data_processor.py: MarketDataPandasProcessor.
use stock_tracker_data_colle.Base.{
  ℕ, String, Bool, true, not, Option, none, some, List, [], ◌∷◌, map, ltb, contains, if◌then◌else◌,
  format,
}
use stock_tracker_data_colle.Base.Texts.{begins_like, upper}
use stock_tracker_data_colle.Errors.{source_error, value_error}
use stock_tracker_data_colle.Exec.{Outcome, ok, raised}
use stock_tracker_data_colle.Exec.Fallible.{◌>>=◌, for_each}
use stock_tracker_data_colle.Frames.{
  Pandas, Row, Frame, Identity, a_text, a_time, a_number, get, is_empty_frame, clean_float,
  clean_datetime, normalize_columns, record_id,
}
use stock_tracker_data_colle.Schemas.{
  StockPriceHistoryRecord, StockPriceHistorySync, StockIntradayRecord, StockIntradaySync,
}
use stock_tracker_data_colle.Pipelines.MarketData.{chunks}
use stock_tracker_data_colle.Processors.Cells.{or_else, str}

-- PriceHistoryInterval
abbrev pub price_history_intervals : List String
price_history_intervals = "1m" ∷ "5m" ∷ "15m" ∷ "30m" ∷ "1h" ∷ "1D" ∷ "1W" ∷ "1M" ∷ []

unfoldable pub price_history_interval : String → Outcome String
price_history_interval interval =
    if contains interval price_history_intervals
    then ok interval
    else raised (value_error (format (interval ∷ " is not a valid PriceHistoryInterval" ∷ [])))

-- interval in {"1D", "1W", "1M"}
abbrev pub is_daily : String → Bool
is_daily interval = contains interval ("1D" ∷ "1W" ∷ "1M" ∷ [])

-- {"B": "BUY", "BUY": "BUY", "S": "SELL", "SELL": "SELL"}.get(side)
unfoldable pub match_type_of : String → Option String
match_type_of side =
    if contains side ("B" ∷ "BUY" ∷ [])
    then some "BUY"
    else if contains side ("S" ∷ "SELL" ∷ [])
    then some "SELL"
    else none

module _ (pd : Pandas) where
  -- _clean_float
  unfoldable pub market_float : Option pd.Cell → Outcome pd.Number
  market_float v = elim (clean_float pd v) [
    | none ↦ raised (source_error "Invalid market numeric value")
    | some result ↦
        if pd.is_negative result
        then raised (source_error "Invalid market numeric value")
        else ok result
  ]

  -- not (isinstance(v, str) and not re.match(…))
  abbrev pub is_dated : Option pd.Cell → Bool
  is_dated none = true
  is_dated (some v) = elim (pd.as_text v) [ none ↦ true | some s ↦ begins_like "dddd-dd-dd" s ]

  -- _parse_datetime
  unfoldable pub parse_datetime : Option pd.Cell → Outcome pd.Time
  parse_datetime v =
      if not (is_dated v)
      then raised (source_error "Invalid market timestamp")
      else elim (clean_datetime pd v) [
        | none ↦ raised (source_error "Invalid market timestamp")
        | some result ↦
            if ltb (pd.year result) 1900
            then raised (source_error "Invalid market timestamp")
            else ok result
      ]

  -- the time of a candle
  abbrev pub candle_time : String → pd.Time → pd.Time
  candle_time interval timestamp =
      if is_daily interval then pd.midnight (pd.date_of timestamp) else timestamp

  -- the body of the loop of transform_price_history
  unfoldable pub candle_of : ℕ → String → Row pd.Cell → Outcome (StockPriceHistoryRecord pd)
  candle_of stock_id interval row = do
    timestamp ← parse_datetime (get "time" row)
    open_price ← market_float (get "open" row)
    high ← market_float (get "high" row)
    low ← market_float (get "low" row)
    close ← market_float (get "close" row)
    volume ← market_float (get "volume" row)
    ok (record {
      time = candle_time interval timestamp;
      open_price = open_price;
      high = high;
      low = low;
      close = close;
      volume = volume;
      stock_id = stock_id;
    })

  abbrev pub candle_columns : List String
  candle_columns = "close" ∷ "high" ∷ "low" ∷ "open" ∷ "time" ∷ "volume" ∷ []

  -- transform_price_history
  unfoldable pub transform_price_history :
      ℕ
      → ℕ
      → Frame pd.Cell
      → String
      → Outcome (List (StockPriceHistorySync (StockPriceHistoryRecord pd)))
  transform_price_history chunk_size stock_id df interval = if is_empty_frame df then ok [] else do
    work ← normalize_columns pd df [] candle_columns
    parsed_interval ← price_history_interval interval
    records ← for_each (candle_of stock_id interval) work.rows
    ok (
        map (λ chunk. record { stock_id = stock_id; interval = parsed_interval; records = chunk })
          (chunks records chunk_size))

  module _ (digest : List (Identity pd) → String) where
    -- the body of the loop of transform_intraday
    unfoldable pub trade_of : ℕ → Frame pd.Cell → Row pd.Cell → Outcome (StockIntradayRecord pd)
    trade_of stock_id df row = do
      timestamp ← parse_datetime (get "time" row)
      price ← market_float (get "price" row)
      volume ← market_float (get "volume" row)
      let match_type = match_type_of (upper (or_else (str pd "match_type" row) "")) in
          ok (record {
            time = timestamp;
            price = price;
            volume = volume;
            match_type = match_type;
            data_source_id =
                record_id pd digest row df "trade"
                  (a_time timestamp ∷ a_number price ∷ a_number volume ∷ a_text match_type ∷ []);
            stock_id = stock_id;
          })

    -- transform_intraday
    unfoldable pub transform_intraday :
        ℕ → ℕ → Frame pd.Cell → Outcome (List (StockIntradaySync (StockIntradayRecord pd)))
    transform_intraday chunk_size stock_id df = if is_empty_frame df then ok [] else do
      work ← normalize_columns pd df [] ("price" ∷ "time" ∷ "volume" ∷ [])
      records ← for_each (trade_of stock_id work) work.rows
      ok (
          map (λ chunk. record { stock_id = stock_id; records = chunk })
            (chunks records chunk_size))
