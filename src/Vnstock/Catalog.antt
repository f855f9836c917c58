-- ===== src/Vnstock/Catalog.antt =====
-- The groups of an index and the catalog: _symbols_by_group, _supported_index_groups and
-- _build_indices_catalog.
use stock_tracker_data_colle.Base.{
  String, Bool, true, false, not, ◌||◌, Option, none, some, List, [], ◌∷◌, ◌++◌, ◌==◌, lookup,
  contains, if◌then◌else◌, format, is_some,
}
use stock_tracker_data_colle.Base.Texts.{strip, upper, lower}
use stock_tracker_data_colle.Errors.{source_error}
use stock_tracker_data_colle.Exec.{Outcome, ok, raised, Exec, pure, raise, lift, ◌>>=◌}
use stock_tracker_data_colle.Config.{Settings}
use stock_tracker_data_colle.Frames.{Pandas, Row, Frame, get}
use stock_tracker_data_colle.Schemas.{IndexBasketRow}
use stock_tracker_data_colle.Vnstock.{Sdk, IndexInfo, call, checked_frame, run_in_thread}

-- d.get(key, default)
abbrev pub get_or : {V : Type 0} → V → Option V → V
get_or default none = default
get_or default (some v) = v

-- _KBS_INDEX_ALIASES
abbrev pub kbs_index_aliases : List (String × String)
kbs_index_aliases = ("VNMID", "VNMidCap") ∷ ("VNSML", "VNSmallCap") ∷ ("VNINDEX", "HOSE") ∷ []

abbrev pub provider_group : String → String
provider_group group = get_or group (lookup group kbs_index_aliases)

-- series.drop_duplicates(): `seen` are the values before
abbrev pub drop_duplicates : List String → List String → List String
drop_duplicates seen [] = []
drop_duplicates seen (x ∷ xs) =
    let later = drop_duplicates (x ∷ seen) xs in
    let same = drop_duplicates seen xs in if contains x seen then same else x ∷ later

-- symbols.setdefault(symbol, group)
abbrev pub setdefault :
    String → Option String → List (String × Option String) → List (String × Option String)
setdefault symbol group symbols =
    if is_some (lookup symbol symbols) then symbols else symbols ++ (symbol, group) ∷ []

abbrev pub setdefault_all :
    Option String → List String → List (String × Option String) → List (String × Option String)
setdefault_all group [] symbols = symbols
setdefault_all group (symbol ∷ rest) symbols =
    setdefault_all group rest (setdefault symbol group symbols)

-- for group in vnstock_index_group_names
abbrev pub requested :
    List (String × List String)
    → List String
    → List (String × Option String)
    → Outcome (List (String × Option String))
requested groups [] symbols = ok symbols
requested groups (group ∷ names) symbols = elim (lookup group groups) [
  | none ↦ raised (source_error (format ("Unknown vnstock index group: " ∷ group ∷ [])))
  | some members ↦ requested groups names (setdefault_all (some group) members symbols)
]

module _ (pd : Pandas) where
  -- df[column]
  abbrev pub column_of : String → List (Row pd.Cell) → List pd.Cell
  column_of column [] = []
  column_of column (row ∷ rows) =
      let rest = column_of column rows in
      elim (get column row) [ none ↦ rest | some value ↦ value ∷ rest ]

  abbrev pub any_na : List pd.Cell → Bool
  any_na [] = false
  any_na (value ∷ values) = pd.is_na value || any_na values

  -- raw.astype(str).str.strip().str.upper()
  abbrev pub symbols_of : List pd.Cell → List String
  symbols_of [] = []
  symbols_of (value ∷ values) = upper (strip (pd.str value)) ∷ symbols_of values

  -- {group for group in column.dropna().astype(str).str.strip() if group}
  abbrev pub group_names : List pd.Cell → List String
  group_names [] = []
  group_names (value ∷ values) =
      let rest = group_names values in
      let name = strip (pd.str value) in if pd.is_na value || name == "" then rest else name ∷ rest

abbrev pub is_nil : {A : Type 0} → List A → Bool
is_nil [] = true
is_nil (x ∷ xs) = false

module _ {pd : Pandas} {W : Type 0} (sdk : Sdk pd W) (settings : Settings) where
  -- the column of a frame that has it, and else the values of a series
  abbrev pub values_of : sdk.Raw → Option (List pd.Cell)
  values_of raw = elim (sdk.as_frame raw) [
    | none ↦ sdk.as_series raw
    | some frame ↦
        if contains "symbol" frame.columns
        then some (column_of pd "symbol" frame.rows)
        else sdk.as_series raw
  ]

  -- the checks of _symbols_by_group
  unfoldable pub constituents : String → Option (List pd.Cell) → Outcome (List String)
  constituents group none =
      raised
        (source_error (format ("vnstock index " ∷ group ∷ ": invalid or empty constituents" ∷ [])))
  constituents group (some values) =
      if is_nil values || any_na pd values
      then raised (
          source_error (format ("vnstock index " ∷ group ∷ ": invalid or empty constituents" ∷ [])))
      else if contains "" (symbols_of pd values)
      then raised
          (source_error (format ("vnstock index " ∷ group ∷ ": blank constituent symbol" ∷ [])))
      else ok (drop_duplicates [] (symbols_of pd values))

  -- _symbols_by_group
  unfoldable pub symbols_by_group : String → Exec W (List String)
  symbols_by_group group = do
    raw ←
        call sdk "symbols_by_group"
          (sdk.list_by_group (provider_group group) (lower settings.vnstock_indices_source))
    lift (constituents group (values_of raw))

  -- the checks of _supported_index_groups
  abbrev pub supported_names : Frame pd.Cell → Outcome (List String)
  supported_names frame =
      if not (contains "group_name" frame.columns)
      then raised (source_error "vnstock index_groups: missing group_name column")
      else elim (group_names pd (column_of pd "group_name" frame.rows)) [
        | [] ↦ raised (source_error "vnstock index_groups: no supported index groups")
        | name ∷ names ↦ ok (name ∷ names)
      ]

  -- _supported_index_groups
  unfoldable pub supported_index_groups : Exec W (List String)
  supported_index_groups = do
    raw ← call sdk "index_groups" (sdk.groups (lower settings.vnstock_indices_source))
    frame ← lift (checked_frame sdk raw "index_groups" false)
    lift (supported_names frame)

  abbrev pub no_info : IndexInfo
  no_info = record { name = none; description = none; group = none }

  abbrev pub basket_row : String → Option String → IndexInfo → List String → IndexBasketRow
  basket_row symbol group info members = record {
    symbol = symbol;
    name = get_or symbol info.name;
    description = info.description;
    group = get_or group info.group;
    constituent_symbols = members;
  }

  -- the round of a supported symbol, and the later rounds
  abbrev pub with_members :
      String
      → Option String
      → IndexInfo
      → Exec W (List IndexBasketRow)
      → Exec W (List IndexBasketRow)
  with_members symbol group info later = do
    members ← symbols_by_group symbol
    rows ← later
    pure (basket_row symbol group info members ∷ rows)

  -- for symbol, group in symbols.items()
  unfoldable pub catalog_rows :
      List (String × IndexInfo)
      → List String
      → List (String × Option String)
      → Exec W (List IndexBasketRow)
  catalog_rows metadata supported [] = pure []
  catalog_rows metadata supported ((symbol, group) ∷ symbols) =
      let rest = catalog_rows metadata supported symbols in
      if not (contains (provider_group symbol) supported)
      then rest
      else with_members symbol group (get_or no_info (lookup symbol metadata)) rest

  -- if not rows: raise …
  abbrev pub checked_rows : List IndexBasketRow → Exec W (List IndexBasketRow)
  checked_rows [] =
      raise (source_error "vnstock index catalog: none of the requested groups are supported")
  checked_rows (row ∷ rows) = pure (row ∷ rows)

  -- _build_indices_catalog
  unfoldable pub build_indices_catalog : Exec W (List IndexBasketRow)
  build_indices_catalog = do
    (groups, metadata) ← run_in_thread sdk sdk.index_metadata
    supported ← supported_index_groups
    symbols ← lift (requested groups settings.vnstock_index_group_names [])
    rows ←
        catalog_rows metadata supported
          (setdefault_all none settings.vnstock_extra_index_symbols symbols)
    checked_rows rows
