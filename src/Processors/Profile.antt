-- ===== src/Processors/Profile.antt =====
-- app/plugins/processors/company_processor.py: transform_profile.
use stock_tracker_data_colle.Base.{
  ℕ, String, Option, none, some, List, [], ◌∷◌, ◌==◌, if◌then◌else◌, discard, map,
}
use stock_tracker_data_colle.Base.Texts.{upper, strip}
use stock_tracker_data_colle.Exec.{Outcome, ok, raised}
use stock_tracker_data_colle.Frames.{
  Pandas, Row, Frame, is_empty_frame, non_blank, normalize_columns,
}
use stock_tracker_data_colle.Schemas.{CompanyProfileSync}
use stock_tracker_data_colle.Processors.Cells.{or_else, str, float, int, date}

module _ (pd : Pandas) where
  -- df.drop(columns=[…], errors="ignore")
  abbrev pub without : List (String × pd.Cell) → String → List (String × pd.Cell)
  without [] column = []
  without ((c, value) ∷ cells) column =
      let rest = without cells column in if c == column then rest else (c, value) ∷ rest

  abbrev pub drop_column : String → Frame pd.Cell → Frame pd.Cell
  drop_column column df = record df {
    columns = discard column df.columns;
    rows = map (λ row. record { cells = without row.cells column }) df.rows;
  }

  -- the display units of KBS are omitted
  unfoldable pub without_display_units : Frame pd.Cell → Frame pd.Cell
  without_display_units df =
      if upper (elim df.source [ none ↦ "" | some s ↦ s ]) == "KBS"
      then drop_column "listing_volume" (drop_column "charter_capital" df)
      else df

  abbrev pub empty_profile : ℕ → Option String → CompanyProfileSync pd
  empty_profile stock_id symbol = record {
    stock_id = stock_id;
    symbol = symbol;
    business_model = none;
    founded_date = none;
    charter_capital = none;
    number_of_employees = none;
    listing_date = none;
    par_value = none;
    listing_price = none;
    listing_volume = none;
    ceo_name = none;
    ceo_position = none;
    inspector_name = none;
    inspector_position = none;
    establishment_license = none;
    business_code = none;
    tax_id = none;
    auditor = none;
    company_type = none;
    address = none;
    phone = none;
    fax = none;
    email = none;
    website = none;
    branches = none;
    history = none;
  }

  -- the payload of the first row
  unfoldable pub profile_of : ℕ → String → Row pd.Cell → CompanyProfileSync pd
  profile_of stock_id symbol row = record {
    stock_id = stock_id;
    symbol = some (or_else (str pd "symbol" row) symbol);
    business_model = str pd "business_model" row;
    founded_date = date pd "founded_date" row;
    charter_capital = float pd "charter_capital" row;
    number_of_employees = int pd "number_of_employees" row;
    listing_date = date pd "listing_date" row;
    par_value = float pd "par_value" row;
    listing_price = float pd "listing_price" row;
    listing_volume = int pd "listing_volume" row;
    ceo_name = str pd "ceo_name" row;
    ceo_position = str pd "ceo_position" row;
    inspector_name = str pd "inspector_name" row;
    inspector_position = str pd "inspector_position" row;
    establishment_license = str pd "establishment_license" row;
    business_code = str pd "business_code" row;
    tax_id = str pd "tax_id" row;
    auditor = str pd "auditor" row;
    company_type = str pd "company_type" row;
    address = str pd "address" row;
    phone = str pd "phone" row;
    fax = str pd "fax" row;
    email = str pd "email" row;
    website = str pd "website" row;
    branches = int pd "branches" row;
    history = str pd "history" row;
  }

  -- df.iloc[0], of a frame that is not empty
  abbrev pub first_profile : ℕ → String → List (Row pd.Cell) → CompanyProfileSync pd
  first_profile stock_id symbol [] = empty_profile stock_id none
  first_profile stock_id symbol (row ∷ rows) = profile_of stock_id symbol row

  -- transform_profile
  unfoldable pub transform_profile : ℕ → Frame pd.Cell → String → Outcome (CompanyProfileSync pd)
  transform_profile stock_id df symbol =
      if is_empty_frame df
      then ok (empty_profile stock_id (non_blank (strip symbol)))
      else elim (normalize_columns pd df
          (("listed_volume", "listing_volume")
            ∷ ("num_employees", "number_of_employees")
            ∷ ("company_profile", "business_model")
            ∷ [])
          []) [
            | raised e ↦ raised e
            | ok work ↦ ok (first_profile stock_id symbol (without_display_units work).rows)
          ]
