-- ===== src/Processors/Candles.antt =====
-- The candles that transform_price_history makes of the rows of a frame.
use stock_tracker_data_colle.Base.{
  All-map, inl, inr, ℕ, ◌≤◌, String, ◌≡◌, refl, sym, subst, ◌∙◌, false, Option, some, List, [], map,
  arith, All, inl, inr, Option-cases, if-false,
}
use stock_tracker_data_colle.Exec.{ok, ok-cancel}
use stock_tracker_data_colle.Exec.Fallible.{for_each, Pairs, for_each-Pairs, bind-ok}
use stock_tracker_data_colle.Frames.{
  Pandas, Row, Frame, get, is_empty_frame, clean_float, clean_datetime, normalize_columns,
}
use stock_tracker_data_colle.Schemas.{StockPriceHistoryRecord, StockPriceHistorySync}
use stock_tracker_data_colle.Pipelines.MarketData.{chunks}
use stock_tracker_data_colle.Pipelines.Chunks.{concat, IsChunk, concat-chunks, concat-unwrap}
use stock_tracker_data_colle.Processors.MarketData.{
  candle_columns, candle_time, candle_of, market_float, parse_datetime, price_history_interval,
  transform_price_history,
}

module _ (pd : Pandas) where
  -- The cell reads as the finite number n, which is not negative.
  abbrev pub IsAmount : Option pd.Cell → pd.Number → Type 0
  IsAmount v n = (clean_float pd v ≡ some n) × (pd.is_negative n ≡ false)

  -- The cell reads as the time t, from 1900 on.
  abbrev pub IsTimestamp : Option pd.Cell → pd.Time → Type 0
  IsTimestamp v t = (clean_datetime pd v ≡ some t) × (1900 ≤ pd.year t)

  abbrev pub IsCandle : String → Row pd.Cell → StockPriceHistoryRecord pd → Type 0
  IsCandle interval row candle =
      ((t : pd.Time) × IsTimestamp (get "time" row) t × (candle.time ≡ candle_time pd interval t))
      × IsAmount (get "open" row) candle.open_price
      × IsAmount (get "high" row) candle.high
      × IsAmount (get "low" row) candle.low
      × IsAmount (get "close" row) candle.close
      × IsAmount (get "volume" row) candle.volume

  market_float-IsAmount :
      (v : Option pd.Cell) (n : pd.Number) → market_float pd v ≡ ok n → IsAmount v n
  unfolding market_float
  market_float-IsAmount v n done = elim (Option-cases (clean_float pd v)) [
    | inl absent ↦ ground (arith, done, absent)
    | inr (m, read) ↦ ground (arith, done, read)
  ]

  parse_datetime-IsTimestamp :
      (v : Option pd.Cell) (t : pd.Time) → parse_datetime pd v ≡ ok t → IsTimestamp v t
  unfolding parse_datetime
  parse_datetime-IsTimestamp v t done = ground (arith, done)

  candle_of-IsCandle :
      (stock_id : ℕ) (interval : String) (row : Row pd.Cell) (candle : StockPriceHistoryRecord pd)
      → candle_of pd stock_id interval row ≡ ok candle
      → IsCandle interval row candle
  unfolding candle_of
  candle_of-IsCandle stock_id interval row candle done =
      let (t, timed, in_time) = bind-ok (parse_datetime pd (get "time" row)) _ candle done in
      let (o, opened, in_open) = bind-ok (market_float pd (get "open" row)) _ candle in_time in
      let (h, rose, in_high) = bind-ok (market_float pd (get "high" row)) _ candle in_open in
      let (l, fell, in_low) = bind-ok (market_float pd (get "low" row)) _ candle in_high in
      let (c, closed, in_close) = bind-ok (market_float pd (get "close" row)) _ candle in_low in
      let (v, traded, made) = bind-ok (market_float pd (get "volume" row)) _ candle in_close in
      let same : record {
        time = candle_time pd interval t;
        open_price = o;
        high = h;
        low = l;
        close = c;
        volume = v;
        stock_id = stock_id;
      }
          ≡ candle =
        cc in
      subst (IsCandle interval row) same (
        (t, parse_datetime-IsTimestamp (get "time" row) t timed, refl),
        market_float-IsAmount (get "open" row) o opened,
        market_float-IsAmount (get "high" row) h rose,
        market_float-IsAmount (get "low" row) l fell,
        market_float-IsAmount (get "close" row) c closed,
        market_float-IsAmount (get "volume" row) v traded,
      )

  wrap_chunk :
      ℕ
      → String
      → List (StockPriceHistoryRecord pd)
      → StockPriceHistorySync (StockPriceHistoryRecord pd)
  wrap_chunk stock_id interval chunk = record {
    stock_id = stock_id;
    interval = interval;
    records = chunk;
  }

  -- The chunks of the records of the loop.
  payloads-chunks :
      (chunk_size stock_id : ℕ) (df : Frame pd.Cell) (interval : String)
      (payloads : List (StockPriceHistorySync (StockPriceHistoryRecord pd)))
      → is_empty_frame df ≡ false
      → transform_price_history pd chunk_size stock_id df interval ≡ ok payloads
      → (records : List (StockPriceHistoryRecord pd)) × (for_each
            (candle_of pd stock_id interval)
            df.rows
          ≡ ok records)
        × (map (wrap_chunk stock_id interval) (chunks records chunk_size) ≡ payloads)
  unfolding transform_price_history price_history_interval normalize_columns wrap_chunk
  payloads-chunks chunk_size stock_id df interval payloads full done =
      let (work, same, in_work) =
        bind-ok (normalize_columns pd df [] (candle_columns pd)) _ payloads
          (if-false (is_empty_frame df) (ok []) _ (ok payloads) full done) in
      let (parsed, valid, in_parsed) =
        bind-ok (price_history_interval interval) _ payloads in_work in
      let (records, looped, made) =
        bind-ok (for_each (candle_of pd stock_id interval) work.rows) _ payloads in_parsed in
      let is_df : work ≡ df = ground (arith, same) in
      let is_interval : parsed ≡ interval = ground (arith, valid) in
      (
        records,
        subst (λ w. for_each (candle_of pd stock_id interval) w.rows ≡ ok records) is_df looped,
        subst (λ i. map (wrap_chunk stock_id i) (chunks records chunk_size) ≡ payloads) is_interval
            (ok-cancel made),
      )

  -- What the payloads that are returned hold.
  pub payloads-IsCandle :
      (chunk_size stock_id : ℕ) (df : Frame pd.Cell) (interval : String)
      (payloads : List (StockPriceHistorySync (StockPriceHistoryRecord pd)))
      → 1 ≤ chunk_size
      → is_empty_frame df ≡ false
      → transform_price_history pd chunk_size stock_id df interval ≡ ok payloads
      → Pairs (IsCandle interval) df.rows (concat (map (λ p. p.records) payloads))
        × All (λ p. IsChunk chunk_size p.records) payloads
        × All (λ p. p.interval ≡ interval) payloads
  unfolding wrap_chunk
  payloads-IsCandle chunk_size stock_id df interval payloads pos full done =
      let (records, looped, made) =
        payloads-chunks chunk_size stock_id df interval payloads full done in
      let wrap = wrap_chunk stock_id interval in
      let (joined, sized) = concat-chunks records chunk_size pos in
      let one_each =
        for_each-Pairs (IsCandle interval) (candle_of pd stock_id interval)
          (candle_of-IsCandle stock_id interval) df.rows records looped in
      subst
        (λ ps.
          Pairs (IsCandle interval) df.rows (concat (map (λ p. p.records) ps))
          × All (λ p. IsChunk chunk_size p.records) ps
          × All (λ p. p.interval ≡ interval) ps)
        made
        (
          subst (Pairs (IsCandle interval) df.rows)
              (sym (
                concat-unwrap wrap (λ p. p.records) (λ xs. refl) (chunks records chunk_size)
                ∙ joined))
              one_each,
          All-map wrap (IsChunk chunk_size) (λ p. IsChunk chunk_size p.records) (λ c h. h)
              (chunks records chunk_size) sized,
          All-map wrap (IsChunk chunk_size) (λ p. p.interval ≡ interval) (λ c h. refl)
              (chunks records chunk_size) sized,
        )
