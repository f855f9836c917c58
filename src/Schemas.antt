-- ===== src/Schemas.antt =====
-- app/schemas: the payloads that are sent, and the IndexBasketRow of the source. The fields of a number or a date are those of pandas.
use stock_tracker_data_colle.Base.{ℕ, String, Option, List}
use stock_tracker_data_colle.Frames.{Pandas}

module _ (pd : Pandas) where
  pub record CompanyProfileSync : Type 0 where
    pub stock_id : ℕ
    pub symbol : Option String
    pub business_model : Option String
    pub founded_date : Option pd.Date
    pub charter_capital : Option pd.Number
    pub number_of_employees : Option pd.Integer
    pub listing_date : Option pd.Date
    pub par_value : Option pd.Number
    pub listing_price : Option pd.Number
    pub listing_volume : Option pd.Integer
    pub ceo_name : Option String
    pub ceo_position : Option String
    pub inspector_name : Option String
    pub inspector_position : Option String
    pub establishment_license : Option String
    pub business_code : Option String
    pub tax_id : Option String
    pub auditor : Option String
    pub company_type : Option String
    pub address : Option String
    pub phone : Option String
    pub fax : Option String
    pub email : Option String
    pub website : Option String
    pub branches : Option pd.Integer
    pub history : Option String

  pub record CompanyShareholderRecord : Type 0 where
    pub data_source_id : Option String
    pub name : String
    pub quantity : Option pd.Integer
    pub ownership_percent : Option pd.Number
    pub updated_date : Option pd.Date

  pub record CompanyOfficerRecord : Type 0 where
    pub data_source_id : Option String
    pub name : String
    pub position : Option String
    pub ownership_percent : Option pd.Number
    pub quantity : Option pd.Integer
    pub updated_date : Option pd.Date

  pub record CompanyAffiliationRecord : Type 0 where
    pub data_source_id : Option String
    pub code : Option String
    pub name : String
    pub type : Option String
    pub ownership_percent : Option pd.Number

  pub record CompanyEventRecord : Type 0 where
    pub data_source_id : Option String
    pub title : String
    pub public_date : Option pd.Date
    pub issue_date : Option pd.Date
    pub source_url : Option String
    pub record_date : Option pd.Date
    pub exright_date : Option pd.Date

  pub record CompanyNewsRecord : Type 0 where
    pub data_source_id : Option String
    pub title : String
    pub image_url : Option String
    pub source_url : Option String
    pub public_date : Option pd.Date
    pub language : Option String
    pub price_change_percent : Option pd.Number

  pub record StockPriceHistoryRecord : Type 0 where
    pub time : pd.Time
    pub open_price : pd.Number
    pub high : pd.Number
    pub low : pd.Number
    pub close : pd.Number
    pub volume : pd.Number
    pub stock_id : ℕ

  pub record StockIntradayRecord : Type 0 where
    pub time : pd.Time
    pub price : pd.Number
    pub volume : pd.Number
    pub match_type : Option String
    pub data_source_id : String
    pub stock_id : ℕ

-- CompanyShareholderSync, CompanyOfficerSync, CompanyAffiliationSync, CompanyEventSync and
-- CompanyNewsSync: the stock and the items.
pub record Snapshot (R : Type 0) : Type 0 where
  pub stock_id : ℕ
  pub items : List R

-- StockPriceHistorySync, with the interval of PriceHistoryInterval by its text
pub record StockPriceHistorySync (R : Type 0) : Type 0 where
  pub stock_id : ℕ
  pub interval : String
  pub records : List R

pub record StockIntradaySync (R : Type 0) : Type 0 where
  pub stock_id : ℕ
  pub records : List R

pub record Industry : Type 0 where
  pub code : String
  pub name : String
  pub level : ℕ

pub record Stock : Type 0 where
  pub symbol : String
  pub name : String
  pub short_name : Option String
  pub exchange : String
  pub type : String
  pub industry_ids : Option (List ℕ)

pub record MarketIndex : Type 0 where
  pub symbol : String
  pub name : String
  pub description : Option String
  pub group : Option String
  pub stock_ids : List ℕ

-- app/plugins/sources/vnstock_source.py: IndexBasketRow
pub record IndexBasketRow : Type 0 where
  pub symbol : String
  pub name : String
  pub description : Option String
  pub group : Option String
  pub constituent_symbols : List String
