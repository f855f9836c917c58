-- ===== src/Processors/Listing.antt =====
-- app/plugins/processors/pandas_processor.py: ListingPandasProcessor. The messages of the exceptions
-- leave out the lists that they print.
use stock_tracker_data_colle.Base.{
  ℕ, String, Bool, true, false, not, ◌&&◌, ◌||◌, Option, none, some, List, [], ◌∷◌, map, ltb,
  contains, lookup, select, ◌==◌, if◌then◌else◌, format,
}
use stock_tracker_data_colle.Base.Texts.{strip, upper, prefix, text_length}
use stock_tracker_data_colle.Errors.{source_error, value_error, key_error, foreign_error}
use stock_tracker_data_colle.Exec.{Outcome, ok, raised}
use stock_tracker_data_colle.Exec.Fallible.{◌>>=◌, for_each, for_some}
use stock_tracker_data_colle.Frames.{
  Pandas, Row, Frame, get, is_empty_frame, clean_str, missing_columns,
}
use stock_tracker_data_colle.Schemas.{Industry, Stock, MarketIndex, IndexBasketRow}
use stock_tracker_data_colle.Processors.Cells.{str}

-- _normalize_exchange, of str(raw)
unfoldable pub normalize_exchange : String → String
normalize_exchange raw = let s = upper (strip raw) in if s == "HOSE" then "HSX" else s

-- _normalize_type, of str(raw)
unfoldable pub normalize_type : String → String
normalize_type raw = let s = upper (strip raw) in if s == "UNIT_TRUST" then "FUND" else s

abbrev pub allowed_types : List String
allowed_types = "STOCK" ∷ "ETF" ∷ "UNIT_TRUST" ∷ "FUND" ∷ []

module _ (pd : Pandas) where
  -- pd.isna, of a cell of a row
  abbrev pub lacks : Row pd.Cell → String → Bool
  lacks row field = elim (get field row) [ none ↦ true | some value ↦ pd.is_na value ]

  abbrev pub has_value : List (String × pd.Cell) → Bool
  has_value [] = false
  has_value ((field, value) ∷ cells) = not (pd.is_na value) || has_value cells

  abbrev pub has_fields : List String → Row pd.Cell → Bool
  has_fields [] row = true
  has_fields (field ∷ fields) row = not (lacks row field) && has_fields fields row

  -- rows.dropna(subset=subset, how="any"), of a frame with the columns
  abbrev pub dropna : List String → List String → List (Row pd.Cell) → Outcome (List (Row pd.Cell))
  dropna subset columns rows = elim (missing_columns pd subset columns) [
    | [] ↦ ok (select (has_fields subset) rows)
    | column ∷ missing ↦ raised (key_error column)
  ]

  -- int(float(level_raw)): none is a TypeError or a ValueError
  abbrev pub level_of : Option pd.Cell → Outcome (Option pd.Integer)
  level_of none = ok none
  level_of (some value) = elim (pd.float value) [
    | none ↦ ok none
    | some n ↦
        if pd.is_nan n
        then ok none
        else if pd.is_finite n
        then ok (some (pd.int n))
        else raised (foreign_error "cannot convert float infinity to integer")
  ]

  -- Industry(code=…, name=…, level=…), whose level is not negative
  abbrev pub validated : String → String → pd.Integer → Outcome (Option Industry)
  validated code name level = elim (pd.natural level) [
    | none ↦ raised (value_error "level must not be negative")
    | some n ↦ ok (some (record { code = prefix 20 code; name = prefix 255 name; level = n }))
  ]

  -- the body of the loop of transform_industries
  unfoldable pub industry_of : Row pd.Cell → Outcome (Option Industry)
  industry_of row = elim (str pd "icb_code" row) [
    | none ↦ ok none
    | some code ↦ elim (str pd "icb_name" row) [
      | none ↦ ok none
      | some name ↦ elim (level_of (get "level" row)) [
        | raised e ↦ raised e
        | ok none ↦ ok none
        | ok (some level) ↦ validated code name level
      ]
    ]
  ]

  -- transform_industries
  unfoldable pub transform_industries : Frame pd.Cell → Outcome (List Industry)
  transform_industries df = if is_empty_frame df then ok [] else do
    work ←
        dropna ("icb_code" ∷ "icb_name" ∷ "level" ∷ []) df.columns
          (select (λ row. has_value row.cells) df.rows)
    for_some industry_of work

  -- the cell of the column type, after df["type"].str.upper()
  abbrev pub type_text : Row pd.Cell → Option String
  type_text row = elim (get "type" row) [
    | none ↦ none
    | some value ↦ elim (pd.as_text value) [ none ↦ none | some s ↦ some (upper s) ]
  ]

  -- df["type"].isin(allowed_types)
  abbrev pub is_allowed : Row pd.Cell → Bool
  is_allowed row = elim (type_text row) [ none ↦ false | some s ↦ contains s allowed_types ]

  -- str(row.get(field))
  abbrev pub text_of : Option pd.Cell → String
  text_of none = "None"
  text_of (some value) = pd.str value

  -- icb
  abbrev pub icb_of : Option pd.Cell → Option String
  icb_of none = none
  icb_of (some value) = if pd.is_na value then none else elim (pd.as_integer_float value) [
    | some n ↦ some (pd.str_int (pd.int n))
    | none ↦ clean_str pd (some value)
  ]

  -- industry_ids
  abbrev pub industry_ids_of : List (String × ℕ) → Option String → Option (List ℕ)
  industry_ids_of industry_code_to_id none = none
  industry_ids_of industry_code_to_id (some icb) = elim (lookup icb industry_code_to_id) [
    | none ↦ none
    | some id ↦ some (id ∷ [])
  ]

  -- the body of the loop of transform_stocks
  unfoldable pub stock_of : List (String × ℕ) → Row pd.Cell → Outcome (Option Stock)
  stock_of industry_code_to_id row = elim (str pd "symbol" row) [
    | none ↦ ok none
    | some sym ↦ elim (str pd "organ_name" row) [
      | none ↦ ok none
      | some name ↦ ok (
          some (record {
            symbol = upper (prefix 20 sym);
            name = name;
            short_name = str pd "organ_short_name" row;
            exchange = normalize_exchange (text_of (get "exchange" row));
            type = normalize_type (elim (type_text row) [ none ↦ "nan" | some s ↦ s ]);
            industry_ids = industry_ids_of industry_code_to_id (icb_of (get "icb_code2" row));
          }))
    ]
  ]

  abbrev pub listing_columns : List String
  listing_columns = "exchange" ∷ "organ_name" ∷ "symbol" ∷ "type" ∷ []

  -- transform_stocks
  unfoldable pub transform_stocks : Frame pd.Cell → List (String × ℕ) → Outcome (List Stock)
  transform_stocks df industry_code_to_id =
      if is_empty_frame df then ok [] else elim (missing_columns pd listing_columns df.columns) [
        | column ∷ columns ↦ raised (source_error "Listing schema missing columns")
        | [] ↦
            if pd.has_str (map (get "type") df.rows)
            then (do
              work ← dropna ("symbol" ∷ "organ_name" ∷ []) df.columns (select is_allowed df.rows)
              for_some (stock_of industry_code_to_id) work)
            else raised (foreign_error "Can only use .str accessor with string values!")
      ]

-- [stock_symbol_to_id.get(s) for s], where it is not None
abbrev pub found_ids : List (String × ℕ) → List String → List ℕ
found_ids ids [] = []
found_ids ids (s ∷ symbols) =
    let rest = found_ids ids symbols in elim (lookup s ids) [ none ↦ rest | some id ↦ id ∷ rest ]

-- set(symbols) - ids.keys() is not empty
abbrev pub has_missing : List (String × ℕ) → List String → Bool
has_missing ids [] = false
has_missing ids (s ∷ symbols) = elim (lookup s ids) [
  | none ↦ true
  | some id ↦ has_missing ids symbols
]

abbrev pub is_nil : List String → Bool
is_nil [] = true
is_nil (s ∷ symbols) = false

-- the body of the loop of transform_market_indices
unfoldable pub market_index_of : List (String × ℕ) → IndexBasketRow → Outcome MarketIndex
market_index_of stock_symbol_to_id b =
    if has_missing stock_symbol_to_id b.constituent_symbols || is_nil b.constituent_symbols
    then raised (source_error (format ("Index " ∷ b.symbol ∷ ": incomplete stock mapping" ∷ [])))
    else if ltb 32 (text_length b.symbol)
    then raised (value_error "symbol should have at most 32 characters")
    else ok (record {
      symbol = b.symbol;
      name = b.name;
      description = b.description;
      group = b.group;
      stock_ids = found_ids stock_symbol_to_id b.constituent_symbols;
    })

-- transform_market_indices
unfoldable pub transform_market_indices :
    List IndexBasketRow → List (String × ℕ) → Outcome (List MarketIndex)
transform_market_indices baskets stock_symbol_to_id =
    for_each (market_index_of stock_symbol_to_id) baskets
