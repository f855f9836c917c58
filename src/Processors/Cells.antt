-- ===== src/Processors/Cells.antt =====
-- The reads of a row's fields by the processors.
use stock_tracker_data_colle.Base.{String, Option, none, some}
use stock_tracker_data_colle.Frames.{
  Pandas, Row, get, clean_str, clean_float, clean_int, clean_date,
}

-- x or y
abbrev pub or_else : Option String → String → String
or_else none y = y
or_else (some x) y = x

module _ (pd : Pandas) where
  abbrev pub str : String → Row pd.Cell → Option String
  str field row = clean_str pd (get field row)

  abbrev pub float : String → Row pd.Cell → Option pd.Number
  float field row = clean_float pd (get field row)

  abbrev pub int : String → Row pd.Cell → Option pd.Integer
  int field row = clean_int pd (get field row)

  abbrev pub date : String → Row pd.Cell → Option pd.Date
  date field row = clean_date pd (get field row)
