-- ===== src/Vnstock/Quotes.antt =====
-- The quotes of a stock: _quote_history and _quote_intraday.
use stock_tracker_data_colle.Base.{
  ℕ, zero, suc, ◌-◌, String, true, false, ◌&&◌, Option, none, some, List, [], ◌∷◌, ◌==◌, ltb, leb,
  length, if◌then◌else◌,
}
use stock_tracker_data_colle.Base.Texts.{strip, upper, lower}
use stock_tracker_data_colle.Errors.{source_error, value_error, foreign_error}
use stock_tracker_data_colle.Exec.{Outcome, ok, raised, Exec, pure, lift, ◌>>=◌, ◌>>◌}
use stock_tracker_data_colle.Config.{Settings}
use stock_tracker_data_colle.Frames.{Pandas, Frame, is_empty_frame}
use stock_tracker_data_colle.Vnstock.{Sdk, call, checked_frame}

module _ {Cell W : Type 0} where
  -- the rest of a round of the loop of _quote_intraday, with what the later rounds return
  abbrev pub next_page : ℕ → Frame Cell → Exec W (List (Frame Cell)) → Exec W (List (Frame Cell))
  next_page page_size frame later =
      if is_empty_frame frame
      then pure []
      else if ltb (length frame.rows) page_size
      then pure (frame ∷ [])
      else (do frames ← later; pure (frame ∷ frames))

module _ {pd : Pandas} {W : Type 0} (sdk : Sdk pd W) (settings : Settings) where
  -- date.fromisoformat(str(text or held or default)); a date that is held reads as itself
  abbrev pub date_or : Option String → Option ℕ → ℕ → Outcome ℕ
  date_or none none default = ok default
  date_or none (some day) default = ok day
  date_or (some text) held default =
      if text == ""
      then (elim held [ none ↦ ok default | some day ↦ ok day ])
      else elim (sdk.fromisoformat text) [
        | none ↦ raised (value_error "Invalid isoformat string")
        | some day ↦ ok day
      ]

  -- end_date - timedelta(days=lookback): the first ordinal is 1
  abbrev pub days_before : ℕ → ℕ → Outcome ℕ
  days_before lookback day =
      if leb day lookback
      then raised (foreign_error "date value out of range")
      else ok (day - lookback)

  abbrev pub ordered : ℕ → ℕ → Outcome (Unit {0})
  ordered start_date end_date =
      if ltb end_date start_date
      then raised (source_error "vnstock history start must not be after end")
      else ok tt

  abbrev pub provider_interval : String → String
  provider_interval interval =
      if interval == "1h" && settings.vnstock_quote_source == "VCI" then "1H" else interval

  -- _quote_history
  unfoldable pub quote_history :
      String → String → Option String → Option String → Exec W (Frame pd.Cell)
  quote_history symbol interval start stop = do
    today ← sdk.today
    end_date ← lift (date_or stop settings.vnstock_history_end today)
    default_start ← lift (days_before settings.vnstock_history_lookback_days end_date)
    start_date ← lift (date_or start settings.vnstock_history_start default_start)
    lift (ordered start_date end_date)
    raw ← call sdk "quote_history" (
        sdk.ohlcv (upper (strip symbol)) (sdk.isoformat start_date) (sdk.isoformat end_date)
          (provider_interval interval) (lower settings.vnstock_quote_source))
    lift (checked_frame sdk raw "quote_history" false)

  abbrev pub trades_of : String → ℕ → Exec W sdk.Raw
  trades_of symbol page =
      sdk.trades (upper (strip symbol)) page settings.vnstock_intraday_page_size
        (lower settings.vnstock_quote_source)

  -- The loop over `left` pages from `page` on, with its two breaks; it returns the frames.
  unfoldable pub fetch_pages : String → ℕ → ℕ → Exec W (List (Frame pd.Cell))
  fetch_pages symbol zero page = pure []
  fetch_pages symbol (suc left) page =
      let rest = fetch_pages symbol left (suc page) in
      do
        raw ← call sdk "quote_intraday" (trades_of symbol page)
        frame ← lift (checked_frame sdk raw "quote_intraday" true)
        next_page settings.vnstock_intraday_page_size frame rest

  abbrev pub joined : List (Frame pd.Cell) → Frame pd.Cell
  joined [] = sdk.no_frame
  joined (frame ∷ frames) = sdk.concat_frames (frame ∷ frames)

  -- _quote_intraday
  unfoldable pub quote_intraday : String → Exec W (Frame pd.Cell)
  quote_intraday symbol = do
    frames ← fetch_pages symbol settings.vnstock_intraday_max_pages 1
    pure (joined frames)
