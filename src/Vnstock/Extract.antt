-- ===== src/Vnstock/Extract.antt =====
-- The operations of the source: extract, _extract and _source_for_operation. The keyword arguments
-- are a dictionary of texts; a date among them stands by its ISO text, and None by its absence.
use stock_tracker_data_colle.Base.{
  String, false, Option, none, some, List, [], ◌∷◌, ◌==◌, lookup, contains, is_some, if◌then◌else◌,
  format,
}
use stock_tracker_data_colle.Base.Texts.{strip, upper, lower}
use stock_tracker_data_colle.Errors.{source_error, key_error}
use stock_tracker_data_colle.Exec.{Outcome, ok, raised, Exec, pure, raise, lift, ◌>>=◌, ◌>>◌}
use stock_tracker_data_colle.Config.{Settings}
use stock_tracker_data_colle.Frames.{Pandas, Frame}
use stock_tracker_data_colle.Schemas.{IndexBasketRow}
use stock_tracker_data_colle.Vnstock.{Sdk, call, checked_frame}
use stock_tracker_data_colle.Vnstock.Catalog.{get_or, symbols_by_group, build_indices_catalog}
use stock_tracker_data_colle.Vnstock.Quotes.{quote_history, quote_intraday}

-- _COMPANY_METHODS
abbrev pub company_methods : List (String × String)
company_methods =
    ("company_overview", "info")
    ∷ ("company_shareholders", "shareholders")
    ∷ ("company_officers", "officers")
    ∷ ("company_subsidiaries", "subsidiaries")
    ∷ ("company_events", "events")
    ∷ ("company_news", "news")
    ∷ []

pub data Extracted (pd : Pandas) : Type 0 where
  a_frame : Frame pd.Cell → Extracted pd
  -- a series of symbols
  a_series : List String → Extracted pd
  baskets : List IndexBasketRow → Extracted pd

abbrev pub Kwargs : Type 0
Kwargs = List (String × String)

-- kwargs[name]
abbrev pub kwarg : String → Kwargs → Outcome String
kwarg name kwargs = elim (lookup name kwargs) [ none ↦ raised (key_error name) | some v ↦ ok v ]

module _ (settings : Settings) where
  -- _source_for_operation
  unfoldable pub source_for_operation : String → Option String
  source_for_operation operation =
      if operation == "industries_icb"
      then some "VCI"
      else if operation == "symbols_by_exchange"
      then some settings.vnstock_listing_source
      else if contains operation ("indices_catalog" ∷ "symbols_by_group" ∷ [])
      then some settings.vnstock_indices_source
      else if is_some (lookup operation company_methods)
      then some settings.vnstock_company_source
      else if contains operation ("quote_history" ∷ "quote_intraday" ∷ [])
      then some settings.vnstock_quote_source
      else none

module _ {pd : Pandas} {W : Type 0} (sdk : Sdk pd W) (settings : Settings) where
  -- the branches of one call and one frame that must not be empty
  abbrev pub snapshot : String → Exec W sdk.Raw → Exec W (Frame pd.Cell)
  snapshot operation func = do
    raw ← call sdk operation func
    lift (checked_frame sdk raw operation false)

  unfoldable pub company_frame : String → String → Kwargs → Exec W (Extracted pd)
  company_frame operation method kwargs = do
    symbol ← lift (kwarg "symbol" kwargs)
    frame ←
        snapshot operation
          (sdk.company (upper (strip symbol)) method (lower settings.vnstock_company_source))
    pure (a_frame (record frame { source = some settings.vnstock_company_source }))

  unfoldable pub history_frame : Kwargs → Exec W (Extracted pd)
  history_frame kwargs = do
    symbol ← lift (kwarg "symbol" kwargs)
    frame ←
        quote_history sdk settings symbol
          (get_or settings.vnstock_price_history_interval (lookup "interval" kwargs))
          (lookup "start" kwargs) (lookup "end" kwargs)
    pure (a_frame frame)

  unfoldable pub intraday_frame : Kwargs → Exec W (Extracted pd)
  intraday_frame kwargs = do
    symbol ← lift (kwarg "symbol" kwargs)
    frame ← quote_intraday sdk settings symbol
    pure (a_frame frame)

  abbrev pub listing_frame : String → Exec W sdk.Raw → Exec W (Extracted pd)
  listing_frame operation func = do frame ← snapshot operation func; pure (a_frame frame)

  abbrev pub catalog : Exec W (Extracted pd)
  catalog = do rows ← build_indices_catalog sdk settings; pure (baskets rows)

  abbrev pub group_series : Kwargs → Exec W (Extracted pd)
  group_series kwargs = do
    group ← lift (kwarg "group" kwargs)
    members ← symbols_by_group sdk settings group
    pure (a_series members)

  -- the branches after those of a listing
  abbrev pub extract_stock : String → Kwargs → Exec W (Extracted pd)
  extract_stock operation kwargs = elim (lookup operation company_methods) [
    | some method ↦ company_frame operation method kwargs
    | none ↦
        if operation == "quote_history"
        then history_frame kwargs
        else if operation == "quote_intraday"
        then intraday_frame kwargs
        else raise (source_error (format ("Unknown vnstock operation: " ∷ operation ∷ [])))
  ]

  -- _extract
  unfoldable pub run_extract : String → Kwargs → Exec W (Extracted pd)
  run_extract operation kwargs =
      if operation == "indices_catalog"
      then catalog
      else if operation == "symbols_by_group"
      then group_series kwargs
      else if operation == "industries_icb"
      then listing_frame operation (sdk.industries "vci")
      else if operation == "symbols_by_exchange"
      then listing_frame operation (sdk.list_by_exchange (lower settings.vnstock_listing_source))
      else extract_stock operation kwargs

  -- extract; `archive` is the capture of the RawArchive, if there is one
  unfoldable pub extract :
      Option (String → Extracted pd → Option String → Kwargs → Exec W (Unit {0}))
      → String
      → Kwargs
      → Exec W (Extracted pd)
  extract archive operation kwargs = do
    result ← run_extract operation kwargs
    elim archive [
      | none ↦ pure result
      | some capture ↦
          capture operation result (source_for_operation settings operation) kwargs >> pure result
    ]
