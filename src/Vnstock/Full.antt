-- ===== src/Vnstock/Full.antt =====
-- The price history of the source, and the check of its frame.
use stock_tracker_data_colle.Base.{
  String, ◌≡◌, subst, false, Option, none, some, arith, inl, inr, lookup, Option-cases, Bool-cases,
}
use stock_tracker_data_colle.Base.Texts.{strip, upper, lower}
use stock_tracker_data_colle.Exec.{
  Always-pass, ok, Exec, lift, pure, Always, Always-bind, Returns-cases,
}
use stock_tracker_data_colle.Config.{Settings}
use stock_tracker_data_colle.Frames.{Pandas, Frame, is_empty_frame}
use stock_tracker_data_colle.Vnstock.{Sdk, call, checked_frame}
use stock_tracker_data_colle.Vnstock.Catalog.{get_or}
use stock_tracker_data_colle.Vnstock.Quotes.{
  quote_history, date_or, days_before, ordered, provider_interval,
}
use stock_tracker_data_colle.Vnstock.Extract.{
  Extracted, a_frame, Kwargs, kwarg, history_frame, run_extract, extract, source_for_operation,
}

module _ {pd : Pandas} {W : Type 0} (sdk : Sdk pd W) (settings : Settings) where
  checked_frame-IsFull :
      (raw : sdk.Raw) (operation : String) (df : Frame pd.Cell)
      → checked_frame sdk raw operation false ≡ ok df
      → is_empty_frame df ≡ false
  unfolding checked_frame
  checked_frame-IsFull raw operation df done = elim (Option-cases (sdk.as_frame raw)) [
    | inl other ↦ absurd (ground (arith, done, other))
    | inr (frame, held) ↦ elim (Bool-cases (is_empty_frame frame)) [
      | inl empty ↦ absurd (ground (arith, done, held, empty))
      | inr full ↦
          let same : frame ≡ df = ground (arith, done, held, full) in
          subst (λ f. is_empty_frame f ≡ false) same full
    ]
  ]

  abbrev pub IsFull : Frame pd.Cell → Type 0
  IsFull df = is_empty_frame df ≡ false

  quote_history-IsFull :
      (symbol interval : String) (start stop : Option String)
      → Always IsFull (quote_history sdk settings symbol interval start stop)
  unfolding quote_history
  quote_history-IsFull symbol interval start stop = Always-bind IsFull sdk.today _ λ today.
      Always-bind IsFull (lift (date_or sdk settings stop settings.vnstock_history_end today)) _
        λ end_date.
          Always-bind IsFull
            (lift (days_before sdk settings settings.vnstock_history_lookback_days end_date)) _
            λ default_start.
              Always-bind IsFull
                (lift (date_or sdk settings start settings.vnstock_history_start default_start)) _
                λ start_date.
                  Always-bind IsFull (lift (ordered sdk settings start_date end_date)) _ λ t.
                    Always-bind IsFull
                      (call sdk "quote_history" (
                        sdk.ohlcv (upper (strip symbol)) (sdk.isoformat start_date)
                          (sdk.isoformat end_date) (provider_interval sdk settings interval)
                          (lower settings.vnstock_quote_source)))
                      _ λ raw s. Returns-cases IsFull _ (checked_frame-IsFull raw "quote_history")

  -- a frame among the results of the source is not empty
  abbrev pub HoldsFull : Extracted pd → Type 0
  HoldsFull (a_frame df) = IsFull df
  HoldsFull _ = Unit

  history_frame-HoldsFull : (kwargs : Kwargs) → Always HoldsFull (history_frame sdk settings kwargs)
  unfolding history_frame
  history_frame-HoldsFull kwargs = Always-bind HoldsFull (lift (kwarg "symbol" kwargs)) _ λ symbol.
      Always-pass IsFull HoldsFull
        (quote_history sdk settings symbol
          (get_or settings.vnstock_price_history_interval (lookup "interval" kwargs))
          (lookup "start" kwargs) (lookup "end" kwargs))
        _
        (quote_history-IsFull symbol
          (get_or settings.vnstock_price_history_interval (lookup "interval" kwargs))
          (lookup "start" kwargs) (lookup "end" kwargs))
        λ frame full s. full

  run_extract-HoldsFull :
      (kwargs : Kwargs) → Always HoldsFull (run_extract sdk settings "quote_history" kwargs)
  unfolding run_extract
  run_extract-HoldsFull kwargs = history_frame-HoldsFull kwargs

  -- The price history that the source extracts, archived or not, has a row and a column.
  pub extract-HoldsFull :
      (archive : Option (String → Extracted pd → Option String → Kwargs → Exec W (Unit {0})))
      (kwargs : Kwargs)
      → Always HoldsFull (extract sdk settings archive "quote_history" kwargs)
  unfolding extract
  extract-HoldsFull none kwargs =
      Always-pass HoldsFull HoldsFull (run_extract sdk settings "quote_history" kwargs) _
        (run_extract-HoldsFull kwargs) λ result full s. full
  extract-HoldsFull (some capture) kwargs =
      Always-pass HoldsFull HoldsFull (run_extract sdk settings "quote_history" kwargs) _
        (run_extract-HoldsFull kwargs)
        λ result full.
          Always-bind HoldsFull
            (capture "quote_history" result (source_for_operation settings "quote_history") kwargs)
            (λ _. pure result) λ t s. full
