-- ===== src/Tests/Processors.antt =====
-- The theorems on the processors, at small frames.
use stock_tracker_data_colle.Base.{
  true, ℕ, every, String, ◌≡◌, refl, false, none, some, List, [], ◌∷◌, All,
}
use stock_tracker_data_colle.Exec.Fallible.{Pairs}
use stock_tracker_data_colle.Frames.{
  Identity, Row, Frame, normalize_columns, record_id, clean_str, clean_float, clean_datetime,
  clean_date, clean_int,
}
use stock_tracker_data_colle.Base.Texts.{strip, upper, lower, is_space}
use stock_tracker_data_colle.Schemas.{
  MarketIndex, IndexBasketRow, Stock, StockPriceHistoryRecord, StockPriceHistorySync,
}
use stock_tracker_data_colle.Pipelines.Company.{shareholders, is_incomplete}
use stock_tracker_data_colle.Pipelines.Wiring.{transform, of_shareholders, transform-all_titled}
use stock_tracker_data_colle.Processors.Company.{shareholder_of, transform_shareholders, officer_of}
use stock_tracker_data_colle.Processors.Identity.{
  shareholder_of-AgreeOn, shareholder_id, officer_id,
}
use stock_tracker_data_colle.Processors.Listing.{
  transform_stocks, transform_market_indices, stock_of, market_index_of, normalize_type,
  normalize_exchange,
}
use stock_tracker_data_colle.Processors.Baskets.{
  IsIndex, is_complete, transform_market_indices-IsIndex,
}
use stock_tracker_data_colle.Processors.Listed.{IsListed, transform_stocks-IsListed}
use stock_tracker_data_colle.Tests.Provider.{texts, table}

abbrev digest : List (Identity texts) → String
digest identity = "d"

abbrev holders : Frame String
holders =
    table ("share_holder" ∷ "quantity" ∷ [])
      ((("share_holder", "An") ∷ ("quantity", "55") ∷ []) ∷ [])

transform-all_titled_example : is_incomplete shareholders 1 1 ≡ false
unfolding transform transform_shareholders normalize_columns shareholder_of record_id clean_str
    clean_float clean_int clean_datetime clean_date strip upper lower is_space
transform-all_titled_example =
    transform-all_titled texts digest shareholders 7 holders "VIC"
      (of_shareholders (record {
        stock_id = 7;
        items =
            record {
              data_source_id = some "vci:shareholder:d";
              name = "An";
              quantity = some 2;
              ownership_percent = none;
              updated_date = none;
            }
            ∷ [];
      }))
      refl refl

shareholder_of-AgreeOn_example :
    let row : Row String = record { cells = ("name", "An") ∷ ("quantity", "55") ∷ [] } in
    let row' : Row String = record { cells = ("name", "An") ∷ ("quantity", "6") ∷ [] } in
    (shareholder_id texts digest (shareholder_of texts digest holders row)
      ≡ shareholder_id texts digest (shareholder_of texts digest holders row'))
    × (officer_id texts digest (officer_of texts digest holders row)
        ≡ officer_id texts digest (officer_of texts digest holders row'))
shareholder_of-AgreeOn_example =
    shareholder_of-AgreeOn texts digest holders holders
      (record { cells = ("name", "An") ∷ ("quantity", "55") ∷ [] })
      (record { cells = ("name", "An") ∷ ("quantity", "6") ∷ [] }) refl
      (refl, (refl, (refl, (refl, (refl, (refl, (refl, tt)))))))

abbrev prices : List (String × String)
prices =
    ("time", "2026-01-05")
    ∷ ("open", "1")
    ∷ ("high", "12")
    ∷ ("low", "1")
    ∷ ("close", "1")
    ∷ ("volume", "123")
    ∷ []

abbrev candles : Frame String
candles = table ("time" ∷ "open" ∷ "high" ∷ "low" ∷ "close" ∷ "volume" ∷ []) (prices ∷ prices ∷ [])

abbrev a_candle : StockPriceHistoryRecord texts
a_candle = record {
  time = 2026;
  open_price = 1;
  high = 2;
  low = 1;
  close = 1;
  volume = 3;
  stock_id = 7;
}

abbrev a_chunk : StockPriceHistorySync (StockPriceHistoryRecord texts)
a_chunk = record { stock_id = 7; interval = "1D"; records = a_candle ∷ [] }

abbrev listing : Frame String
listing = table ("symbol" ∷ "organ_name" ∷ "exchange" ∷ "type" ∷ []) (
    (("symbol", "fpt") ∷ ("organ_name", "FPT") ∷ ("exchange", "HOSE") ∷ ("type", "unit_trust") ∷ [])
    ∷ (("symbol", "X") ∷ ("organ_name", "X") ∷ ("exchange", "HNX") ∷ ("type", "bond") ∷ [])
    ∷ [])

abbrev a_stock : Stock
a_stock = record {
  symbol = "FPT";
  name = "FPT";
  short_name = none;
  exchange = "HSX";
  type = "FUND";
  industry_ids = none;
}

transform_stocks-IsListed_example : All IsListed (a_stock ∷ [])
unfolding transform_stocks stock_of clean_str strip upper is_space normalize_type normalize_exchange
transform_stocks-IsListed_example = transform_stocks-IsListed texts listing [] (a_stock ∷ []) refl

abbrev a_basket : IndexBasketRow
a_basket = record {
  symbol = "VN30";
  name = "VN30";
  description = none;
  group = none;
  constituent_symbols = "FPT" ∷ "VIC" ∷ [];
}

abbrev an_index : MarketIndex
an_index = record {
  symbol = "VN30";
  name = "VN30";
  description = none;
  group = none;
  stock_ids = 4 ∷ 9 ∷ [];
}

abbrev ids : List (String × ℕ)
ids = ("VIC", 9) ∷ ("FPT", 4) ∷ []

transform_market_indices-IsIndex_example :
    (true ≡ every (is_complete ids) (a_basket ∷ []))
    × Pairs (IsIndex ids) (a_basket ∷ []) (an_index ∷ [])
unfolding transform_market_indices market_index_of
transform_market_indices-IsIndex_example = transform_market_indices-IsIndex (a_basket ∷ []) ids
