-- ===== src/Processors/Priced.antt =====
-- The rows of which transform_price_history can make a candle.
use stock_tracker_data_colle.Base.{
  ℕ, String, ◌≡◌, refl, ◌∙◌, Bool, true, false, not, ◌&&◌, Option, none, some, arith, ltb,
}
use stock_tracker_data_colle.Exec.{is_ok}
use stock_tracker_data_colle.Exec.Fallible.{bind-is_ok}
use stock_tracker_data_colle.Frames.{Pandas, Row, get, clean_float, clean_datetime}
use stock_tracker_data_colle.Processors.MarketData.{
  is_dated, market_float, parse_datetime, candle_of,
}

module _ (pd : Pandas) where
  -- The cell reads as a time from 1900 on, and as a number that is not negative.
  abbrev pub is_timed : Option pd.Cell → Bool
  is_timed v =
      is_dated pd v
      && elim (clean_datetime pd v) [ none ↦ false | some t ↦ not (ltb (pd.year t) 1900) ]

  abbrev pub is_amount : Option pd.Cell → Bool
  is_amount v = elim (clean_float pd v) [ none ↦ false | some n ↦ not (pd.is_negative n) ]

  abbrev pub is_priced : Row pd.Cell → Bool
  is_priced row =
      is_timed (get "time" row)
      && is_amount (get "open" row)
      && is_amount (get "high" row)
      && is_amount (get "low" row)
      && is_amount (get "close" row)
      && is_amount (get "volume" row)

  market_float-is_amount : (v : Option pd.Cell) → is_ok (market_float pd v) ≡ is_amount v
  unfolding market_float
  market_float-is_amount v = ground arith

  parse_datetime-is_timed : (v : Option pd.Cell) → is_ok (parse_datetime pd v) ≡ is_timed v
  unfolding parse_datetime
  parse_datetime-is_timed v = ground arith

  pub candle_of-is_priced :
      (stock_id : ℕ) (interval : String) (row : Row pd.Cell)
      → is_ok (candle_of pd stock_id interval row) ≡ is_priced row
  unfolding candle_of
  candle_of-is_priced stock_id interval row =
      let amount = λ (field : String). market_float pd (get field row) in
      bind-is_ok (parse_datetime pd (get "time" row)) _ _ (λ t. bind-is_ok (amount "open") _ _ (λ o.
        bind-is_ok (amount "high") _ _ (λ h. bind-is_ok (amount "low") _ _ (λ l.
          bind-is_ok (amount "close") _ _ (λ c. bind-is_ok (amount "volume") _ true (λ v. refl))))))
      ∙ ground (
        arith,
        parse_datetime-is_timed (get "time" row),
        market_float-is_amount (get "open" row),
        market_float-is_amount (get "high" row),
        market_float-is_amount (get "low" row),
        market_float-is_amount (get "close" row),
        market_float-is_amount (get "volume" row),
      )
