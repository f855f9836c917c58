-- ===== src/Frames.antt =====
-- app/plugins/processors/pandas_utils.py. A DataFrame is its columns, its rows with the cells of the
-- columns, and the source in its attrs; pandas, float and datetime are the fields of a record.
use stock_tracker_data_colle.Base.{
  ℕ, String, Bool, true, false, not, Option, none, some, List, [], ◌∷◌, ◌++◌, map, ◌==◌,
  if◌then◌else◌, contains, format, lookup, insert,
}
use stock_tracker_data_colle.Base.Texts.{strip, lower, has_code}
use stock_tracker_data_colle.Errors.{source_error}
use stock_tracker_data_colle.Exec.{Outcome, ok, raised}

-- What the processors call of pandas and of Python's numbers and dates. A Stamp is a pd.Timestamp,
-- a Time a naive datetime; none stands for an exception that the code catches, where no other
-- meaning is given.
pub record Pandas : Type 1 where
  pub Cell : Type 0
  -- a float
  pub Number : Type 0
  pub Integer : Type 0
  pub Stamp : Type 0
  pub Time : Type 0
  pub Date : Type 0
  -- value is None or pd.isna(value)
  pub is_na : Cell → Bool
  -- str(value)
  pub str : Cell → String
  -- value, if isinstance(value, str)
  pub as_text : Cell → Option String
  -- float(value), if isinstance(value, Real)
  pub as_real : Cell → Option Number
  -- float(value)
  pub float : Cell → Option Number
  pub is_finite : Number → Bool
  -- int(value), of a finite float
  pub int : Number → Integer
  -- abs(value) >= 100_000_000_000
  pub is_large : Number → Bool
  -- pd.to_datetime(value, unit=…, utc=True), by whether the unit is ms
  pub from_unix : Bool → Number → Option Stamp
  -- pd.Timestamp(value)
  pub timestamp : Cell → Option Stamp
  -- datetime.strptime(text, "%d/%m/%Y")
  pub strptime_dmy : String → Option Time
  pub of_time : Time → Option Stamp
  pub is_nat : Stamp → Bool
  -- the local naive datetime of a stamp: tz_convert and tz_localize if it has a zone, to_pydatetime
  pub to_local : Stamp → Option Time
  pub date_of : Time → Date
  -- datetime.combine(date, datetime.min.time())
  pub midnight : Date → Time
  pub year : Time → ℕ
  -- result < 0
  pub is_negative : Number → Bool
  -- a non-negative integer as a number
  pub natural : Integer → Option ℕ
  -- float(value), if isinstance(value, float) and value.is_integer()
  pub as_integer_float : Cell → Option Number
  pub is_nan : Number → Bool
  -- whether a column of these values has the accessor .str, which all strings do
  pub has_str : List (Option Cell) → Bool
  -- the decimal digits of an integer
  pub str_int : Integer → String

pub record Row (Cell : Type 0) : Type 0 where
  pub cells : List (String × Cell)

pub record Frame (Cell : Type 0) : Type 0 where
  pub columns : List String
  pub rows : List (Row Cell)
  -- attrs.get("source")
  pub source : Option String

-- row.get(field)
abbrev pub get : {Cell : Type 0} → String → Row Cell → Option Cell
get field row = lookup field row.cells

-- df.empty
abbrev pub is_empty_frame : {Cell : Type 0} → Frame Cell → Bool
is_empty_frame df = elim df.columns [
  | [] ↦ true
  | c ∷ cs ↦ elim df.rows [ [] ↦ true | r ∷ rs ↦ false ]
]

-- text or None
abbrev pub non_blank : String → Option String
non_blank s = if s == "" then none else some s

module _ (pd : Pandas) where
  -- clean_str; a missing field reads as None
  unfoldable pub clean_str : Option pd.Cell → Option String
  clean_str none = none
  clean_str (some value) = if pd.is_na value then none else non_blank (strip (pd.str value))

  -- return result if math.isfinite(result) else None
  abbrev pub finite : Option pd.Number → Option pd.Number
  finite none = none
  finite (some result) = if pd.is_finite result then some result else none

  -- clean_float
  unfoldable pub clean_float : Option pd.Cell → Option pd.Number
  clean_float none = none
  clean_float (some value) = if pd.is_na value then none else finite (pd.float value)

  -- clean_int
  unfoldable pub clean_int : Option pd.Cell → Option pd.Integer
  unfolding clean_float
  clean_int value = elim (clean_float value) [ none ↦ none | some result ↦ some (pd.int result) ]

  -- the branches of the `try` of clean_datetime; none is an exception
  abbrev pub stamp_of : pd.Cell → Option pd.Stamp
  stamp_of value = elim (pd.as_real value) [
    | some numeric ↦ pd.from_unix (pd.is_large numeric) numeric
    | none ↦ elim (pd.as_text value) [
      | none ↦ pd.timestamp value
      | some s ↦
          if has_code 47 s
          then elim (pd.strptime_dmy s) [ none ↦ none | some t ↦ pd.of_time t ]
          else pd.timestamp value
    ]
  ]

  -- the `except` of clean_datetime
  abbrev pub fallback_datetime : pd.Cell → Option pd.Time
  fallback_datetime value = pd.strptime_dmy (pd.str value)

  -- clean_datetime
  unfoldable pub clean_datetime : Option pd.Cell → Option pd.Time
  clean_datetime none = none
  clean_datetime (some value) = if pd.is_na value then none else elim (stamp_of value) [
    | none ↦ fallback_datetime value
    | some stamp ↦
        if pd.is_nat stamp
        then none
        else elim (pd.to_local stamp) [ none ↦ fallback_datetime value | some t ↦ some t ]
  ]

  -- clean_date
  unfoldable pub clean_date : Option pd.Cell → Option pd.Date
  unfolding clean_datetime
  clean_date value = elim (clean_datetime value) [ none ↦ none | some t ↦ some (pd.date_of t) ]

  -- work[canonical] = work[alias], for one row
  abbrev pub copied : String → String → Row pd.Cell → Row pd.Cell
  copied alias canonical row = elim (get alias row) [
    | none ↦ row
    | some value ↦ record { cells = insert canonical value row.cells }
  ]

  -- work[canonical].fillna(work[alias]), for one row
  abbrev pub filled : String → String → Row pd.Cell → Row pd.Cell
  filled alias canonical row = elim (get canonical row) [
    | none ↦ row
    | some value ↦ if pd.is_na value then copied alias canonical row else row
  ]

  -- one round of the loop of normalize_columns
  abbrev pub apply_alias : String → String → Frame pd.Cell → Frame pd.Cell
  apply_alias alias canonical work =
      if not (contains alias work.columns)
      then work
      else if not (contains canonical work.columns)
      then record work {
        columns = work.columns ++ canonical ∷ [];
        rows = map (copied alias canonical) work.rows;
      }
      else record work { rows = map (filled alias canonical) work.rows }

  abbrev pub apply_aliases : List (String × String) → Frame pd.Cell → Frame pd.Cell
  apply_aliases [] work = work
  apply_aliases ((alias, canonical) ∷ aliases) work =
      apply_aliases aliases (apply_alias alias canonical work)

  -- required - set(work.columns)
  abbrev pub missing_columns : List String → List String → List String
  missing_columns [] columns = []
  missing_columns (column ∷ required) columns =
      let rest = missing_columns required columns in
      if contains column columns then rest else column ∷ rest

  -- normalize_columns; `required` is listed in order
  unfoldable pub normalize_columns :
      Frame pd.Cell → List (String × String) → List String → Outcome (Frame pd.Cell)
  normalize_columns df aliases required =
      let work = apply_aliases aliases df in
      elim (missing_columns required work.columns) [
        | [] ↦ ok work
        | column ∷ columns ↦
            raised (source_error (format ("Provider schema missing columns: " ∷ column ∷ columns)))
      ]

  -- A component of an identity, which json.dumps prints.
  pub data Identity : Type 0 where
    a_text : Option String → Identity
    a_date : Option pd.Date → Identity
    a_time : pd.Time → Identity
    a_number : pd.Number → Identity

  -- The first of the fields that names the row, in the order of record_id.
  abbrev pub own_id : String → String → List String → Row pd.Cell → Option String
  own_id source entity [] row = none
  own_id source entity (field ∷ fields) row =
      let rest = own_id source entity fields row in
      elim (clean_str (get field row)) [
        | none ↦ rest
        | some existing ↦ some (
            if field == "data_source_id"
            then existing
            else format (source ∷ ":" ∷ entity ∷ ":" ∷ existing ∷ []))
      ]

  abbrev pub id_fields : List String
  id_fields = "data_source_id" ∷ "id" ∷ "article_id" ∷ "news_id" ∷ "event_id" ∷ []

  -- str(df.attrs.get("source", "vnstock")).lower()
  abbrev pub source_name : Frame pd.Cell → String
  source_name df = lower (elim df.source [ none ↦ "vnstock" | some s ↦ s ])

  -- record_id; `digest` is the SHA-256 of the JSON text of the identity.
  unfoldable pub record_id :
      (List Identity → String) → Row pd.Cell → Frame pd.Cell → String → List Identity → String
  unfolding clean_str
  record_id digest row df entity identity = elim (own_id (source_name df) entity id_fields row) [
    | some id ↦ id
    | none ↦ format (source_name df ∷ ":" ∷ entity ∷ ":" ∷ digest identity ∷ [])
  ]
