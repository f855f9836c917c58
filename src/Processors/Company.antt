-- ===== src/Processors/Company.antt =====
-- app/plugins/processors/company_processor.py: CompanyPandasProcessor.
use stock_tracker_data_colle.Base.{
  ℕ, String, Option, none, some, List, [], ◌∷◌, ◌==◌, if◌then◌else◌,
}
use stock_tracker_data_colle.Exec.{Outcome, ok, raised}
use stock_tracker_data_colle.Frames.{
  Pandas, Row, Frame, Identity, a_text, a_date, is_empty_frame, normalize_columns, record_id,
}
use stock_tracker_data_colle.Schemas.{
  CompanyShareholderRecord, CompanyOfficerRecord, CompanyAffiliationRecord, CompanyEventRecord,
  CompanyNewsRecord, Snapshot,
}
use stock_tracker_data_colle.Processors.Cells.{or_else, str, float, int, date}

-- The loop over the rows, which skips a row by `continue`.
abbrev pub kept : {A R : Type 0} → (A → Option R) → List A → List R
kept record_of [] = []
kept record_of (row ∷ rows) =
    let rest = kept record_of rows in elim (record_of row) [ none ↦ rest | some r ↦ r ∷ rest ]

-- the aliases of the columns, by the payload
abbrev pub shareholder_aliases : List (String × String)
shareholder_aliases =
    ("share_holder", "name")
    ∷ ("shares_owned", "quantity")
    ∷ ("ownership_percentage", "ownership_percent")
    ∷ ("share_own_percent", "ownership_percent")
    ∷ ("update_date", "updated_date")
    ∷ []

abbrev pub officer_aliases : List (String × String)
officer_aliases =
    ("officer_name", "name")
    ∷ ("officer_position", "position")
    ∷ ("officer_own_percent", "ownership_percent")
    ∷ ("officer_own_quantity", "quantity")
    ∷ ("update_date", "updated_date")
    ∷ []

abbrev pub affiliation_aliases : List (String × String)
affiliation_aliases = ("organ_name", "name") ∷ ("sub_organ_code", "code") ∷ []

abbrev pub event_aliases : List (String × String)
event_aliases =
    ("event_name", "title")
    ∷ ("event_title", "title")
    ∷ ("event_list_name", "title")
    ∷ ("ex_right_date", "exright_date")
    ∷ []

abbrev pub news_aliases : List (String × String)
news_aliases =
    ("news_title", "title")
    ∷ ("publish_date", "public_date")
    ∷ ("publish_time", "public_date")
    ∷ ("news_source_link", "source_url")
    ∷ ("url", "source_url")
    ∷ []

-- {"công ty con": "SUBSIDIARY", "công ty liên kết": "AFFILIATED"}.get(text or "", text)
unfoldable pub affiliation_type : Option String → Option String
affiliation_type none = none
affiliation_type (some t) =
    if t == "công ty con"
    then some "SUBSIDIARY"
    else if t == "công ty liên kết"
    then some "AFFILIATED"
    else some t

module _ (pd : Pandas) (digest : List (Identity pd) → String) where
  -- The frame is empty, or its columns are normalized and its rows are kept.
  abbrev pub snapshot_of :
      {R : Type 0}
      → List (String × String)
      → String
      → (Frame pd.Cell → Row pd.Cell → Option R)
      → ℕ
      → Frame pd.Cell
      → Outcome (Snapshot R)
  snapshot_of aliases required record_of stock_id df =
      if is_empty_frame df
      then ok (record { stock_id = stock_id; items = [] })
      else elim (normalize_columns pd df aliases (required ∷ [])) [
        | raised e ↦ raised e
        | ok work ↦ ok (record { stock_id = stock_id; items = kept (record_of work) work.rows })
      ]

  unfoldable pub shareholder_of : Frame pd.Cell → Row pd.Cell → Option (CompanyShareholderRecord pd)
  shareholder_of df row = elim (str pd "name" row) [
    | none ↦ none
    | some name ↦ some (record {
      data_source_id = some (record_id pd digest row df "shareholder" (a_text (some name) ∷ []));
      name = name;
      quantity = int pd "quantity" row;
      ownership_percent = float pd "ownership_percent" row;
      updated_date = date pd "updated_date" row;
    })
  ]

  -- transform_shareholders
  unfoldable pub transform_shareholders :
      ℕ → Frame pd.Cell → Outcome (Snapshot (CompanyShareholderRecord pd))
  transform_shareholders = snapshot_of shareholder_aliases "name" shareholder_of

  unfoldable pub officer_of : Frame pd.Cell → Row pd.Cell → Option (CompanyOfficerRecord pd)
  officer_of df row = elim (str pd "name" row) [
    | none ↦ none
    | some name ↦ some (record {
      data_source_id = some (
          record_id pd digest row df "officer"
            (a_text (some name) ∷ a_text (str pd "position" row) ∷ []));
      name = name;
      position = str pd "position" row;
      ownership_percent = float pd "ownership_percent" row;
      quantity = int pd "quantity" row;
      updated_date = date pd "updated_date" row;
    })
  ]

  -- transform_officers
  unfoldable pub transform_officers :
      ℕ → Frame pd.Cell → Outcome (Snapshot (CompanyOfficerRecord pd))
  transform_officers = snapshot_of officer_aliases "name" officer_of

  unfoldable pub affiliation_of : Frame pd.Cell → Row pd.Cell → Option (CompanyAffiliationRecord pd)
  affiliation_of df row = elim (str pd "name" row) [
    | none ↦ none
    | some name ↦ some (record {
      data_source_id = some (
          record_id pd digest row df "affiliation"
            (a_text (some (or_else (str pd "code" row) name)) ∷ []));
      code = str pd "code" row;
      name = name;
      type = affiliation_type (str pd "type" row);
      ownership_percent = float pd "ownership_percent" row;
    })
  ]

  -- transform_affiliations
  unfoldable pub transform_affiliations :
      ℕ → Frame pd.Cell → Outcome (Snapshot (CompanyAffiliationRecord pd))
  transform_affiliations = snapshot_of affiliation_aliases "name" affiliation_of

  unfoldable pub event_of : Frame pd.Cell → Row pd.Cell → Option (CompanyEventRecord pd)
  event_of df row = elim (str pd "title" row) [
    | none ↦ none
    | some title ↦ some (record {
      data_source_id = some (
          record_id pd digest row df "event" (
            a_text (some title)
            ∷ a_date (date pd "public_date" row)
            ∷ a_text (str pd "source_url" row)
            ∷ []));
      title = title;
      public_date = date pd "public_date" row;
      issue_date = date pd "issue_date" row;
      source_url = str pd "source_url" row;
      record_date = date pd "record_date" row;
      exright_date = date pd "exright_date" row;
    })
  ]

  -- transform_events
  unfoldable pub transform_events : ℕ → Frame pd.Cell → Outcome (Snapshot (CompanyEventRecord pd))
  transform_events = snapshot_of event_aliases "title" event_of

  unfoldable pub news_of : Frame pd.Cell → Row pd.Cell → Option (CompanyNewsRecord pd)
  news_of df row = elim (str pd "title" row) [
    | none ↦ none
    | some title ↦ some (record {
      data_source_id = some (
          record_id pd digest row df "news" (
            a_text (some title)
            ∷ a_date (date pd "public_date" row)
            ∷ a_text (str pd "source_url" row)
            ∷ []));
      title = title;
      image_url = str pd "image_url" row;
      source_url = str pd "source_url" row;
      public_date = date pd "public_date" row;
      language = str pd "language" row;
      price_change_percent = float pd "price_change_percent" row;
    })
  ]

  -- transform_news
  unfoldable pub transform_news : ℕ → Frame pd.Cell → Outcome (Snapshot (CompanyNewsRecord pd))
  transform_news = snapshot_of news_aliases "title" news_of
