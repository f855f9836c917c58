-- ===== src/Pipelines/Wiring.antt =====
-- The company pipeline with the company processor: `deps.transform` and the counts of rows and items
-- are those of CompanyPandasProcessor.
use stock_tracker_data_colle.Base.{
  every, ℕ, String, ◌≡◌, Bool, true, false, not, ◌&&◌, Option, List, [], length, is_some, subst,
  fun_ext, eqb, ◌||◌, arith, inl, inr,
}
use stock_tracker_data_colle.Exec.{Outcome, ok, raised, Exec, Outcome-cases}
use stock_tracker_data_colle.Frames.{Pandas, Row, Frame, Identity, is_empty_frame, apply_aliases}
use stock_tracker_data_colle.Schemas.{
  CompanyProfileSync, CompanyShareholderRecord, CompanyOfficerRecord, CompanyAffiliationRecord,
  CompanyEventRecord, CompanyNewsRecord, Snapshot,
}
use stock_tracker_data_colle.Processors.Cells.{str}
use stock_tracker_data_colle.Processors.Profile.{transform_profile}
use stock_tracker_data_colle.Processors.Company.{
  shareholder_aliases, officer_aliases, affiliation_aliases, event_aliases, news_aliases,
  shareholder_of, officer_of, affiliation_of, event_of, news_of, transform_shareholders,
  transform_officers, transform_affiliations, transform_events, transform_news, snapshot_of,
}
use stock_tracker_data_colle.Processors.Snapshot.{snapshot_complete}
use stock_tracker_data_colle.Engine.{World}
use stock_tracker_data_colle.Pipelines.{Printer}
use stock_tracker_data_colle.Pipelines.Company.{
  Stream, profile, shareholders, officers, affiliations, events, news, CompanyDeps, is_incomplete,
}

-- The payloads of the six operations.
pub data Payload (pd : Pandas) : Type 0 where
  of_profile : CompanyProfileSync pd → Payload pd
  of_shareholders : Snapshot (CompanyShareholderRecord pd) → Payload pd
  of_officers : Snapshot (CompanyOfficerRecord pd) → Payload pd
  of_affiliations : Snapshot (CompanyAffiliationRecord pd) → Payload pd
  of_events : Snapshot (CompanyEventRecord pd) → Payload pd
  of_news : Snapshot (CompanyNewsRecord pd) → Payload pd

-- len(payload.items); a profile has none, and its operation does not count them
abbrev pub item_count : {pd : Pandas} → Payload pd → ℕ
item_count (of_profile p) = 0
item_count (of_shareholders s) = length s.items
item_count (of_officers s) = length s.items
item_count (of_affiliations s) = length s.items
item_count (of_events s) = length s.items
item_count (of_news s) = length s.items

abbrev pub mapped : {A B : Type 0} → (A → B) → Outcome A → Outcome B
mapped f (ok a) = ok (f a)
mapped f (raised e) = raised e

-- The aliases of a stream, and the column that a row must fill.
abbrev pub aliases_of : Stream → List (String × String)
aliases_of profile = []
aliases_of shareholders = shareholder_aliases
aliases_of officers = officer_aliases
aliases_of affiliations = affiliation_aliases
aliases_of events = event_aliases
aliases_of news = news_aliases

abbrev pub title_of : Stream → String
title_of profile = "symbol"
title_of shareholders = "name"
title_of officers = "name"
title_of affiliations = "name"
title_of events = "title"
title_of news = "title"

abbrev pub is_snapshot : Stream → Bool
is_snapshot profile = false
is_snapshot _ = true

module _ (pd : Pandas) (digest : List (Identity pd) → String) where
  -- processor.transform_…, by the operation
  unfoldable pub transform : Stream → ℕ → Frame pd.Cell → String → Outcome (Payload pd)
  transform profile stock_id df symbol = mapped of_profile (transform_profile pd stock_id df symbol)
  transform shareholders stock_id df symbol =
      mapped of_shareholders (transform_shareholders pd digest stock_id df)
  transform officers stock_id df symbol =
      mapped of_officers (transform_officers pd digest stock_id df)
  transform affiliations stock_id df symbol =
      mapped of_affiliations (transform_affiliations pd digest stock_id df)
  transform events stock_id df symbol = mapped of_events (transform_events pd digest stock_id df)
  transform news stock_id df symbol = mapped of_news (transform_news pd digest stock_id df)

  -- Whether every row of the frame has the name or the title of its stream.
  abbrev pub all_titled : Stream → Frame pd.Cell → Bool
  all_titled stream df =
      let work = apply_aliases pd (aliases_of stream) df in
      not (is_empty_frame df) && every (λ row. is_some (str pd (title_of stream) row)) work.rows

  -- What the pipeline has beside the processor.
  pub record CompanyClients (S : Type 0) : Type 0 where
    pub fetch_stock_symbol_to_id : List String → Exec (World S) (List (String × ℕ))
    pub extract : String → String → Exec (World S) (Frame pd.Cell)
    pub path : Stream → ℕ → String
    pub send_put : String → Payload pd → Exec (World S) (Unit {0})
    pub vnstock_company_source : String
    pub printer : Printer

  -- the dependencies of run_vnstock_company, with the processor in place
  abbrev pub wired : {S : Type 0} → CompanyClients S → CompanyDeps S
  wired clients = record {
    Frame = Frame pd.Cell;
    Payload = Payload pd;
    rows = λ df. length df.rows;
    items = item_count;
    fetch_stock_symbol_to_id = clients.fetch_stock_symbol_to_id;
    extract = clients.extract;
    transform = transform;
    path = clients.path;
    send_put = clients.send_put;
    vnstock_company_source = clients.vnstock_company_source;
    printer = clients.printer;
  }

  guarded :
      {R : Type 0} (aliases : List (String × String)) (field : String)
      (record_of : Frame pd.Cell → Row pd.Cell → Option R)
      → ((w : Frame pd.Cell) (row : Row pd.Cell)
          → is_some (record_of w row) ≡ is_some (str pd field row))
      → (stock_id : ℕ) (df : Frame pd.Cell) (s : Snapshot R)
      → snapshot_of pd digest aliases field record_of stock_id df ≡ ok s
      → (eqb (length s.items) 0 || not (eqb (length s.items) (length df.rows)))
        ≡ not (
            not (is_empty_frame df)
            && every (λ row. is_some (str pd field row)) (apply_aliases pd aliases df).rows)
  guarded aliases field record_of same stock_id df s made =
      subst
        (λ test.
          (eqb (length s.items) 0 || not (eqb (length s.items) (length df.rows)))
          ≡ not (not (is_empty_frame df) && every test (apply_aliases pd aliases df).rows))
        (fun_ext (same (apply_aliases pd aliases df)))
        (snapshot_complete pd digest aliases field record_of stock_id df s made)

  -- The guard of the pipeline accepts what the processor makes of a frame for a snapshot exactly if
  -- the frame has a row and every row has its name or title, under the column's own name or an alias.
  pub transform-all_titled :
      (stream : Stream) (stock_id : ℕ) (df : Frame pd.Cell) (symbol : String) (payload : Payload pd)
      → is_snapshot stream ≡ true
      → transform stream stock_id df symbol ≡ ok payload
      → is_incomplete stream (item_count payload) (length df.rows) ≡ not (all_titled stream df)
  unfolding transform transform_shareholders transform_officers transform_affiliations
      transform_events transform_news
  transform-all_titled profile stock_id df symbol payload counted made = cc
  transform-all_titled shareholders stock_id df symbol payload counted made =
      elim (Outcome-cases (transform_shareholders pd digest stock_id df)) [
        | inl (s, kept) ↦ ground (
          arith,
          made,
          kept,
          guarded shareholder_aliases "name" (shareholder_of pd digest)
              (unfold shareholder_of in λ w row. ground arith) stock_id df s kept,
        )
        | inr (e, failed) ↦ ground (arith, made, failed)
      ]
  transform-all_titled officers stock_id df symbol payload counted made =
      elim (Outcome-cases (transform_officers pd digest stock_id df)) [
        | inl (s, kept) ↦ ground (
          arith,
          made,
          kept,
          guarded officer_aliases "name" (officer_of pd digest)
              (unfold officer_of in λ w row. ground arith) stock_id df s kept,
        )
        | inr (e, failed) ↦ ground (arith, made, failed)
      ]
  transform-all_titled affiliations stock_id df symbol payload counted made =
      elim (Outcome-cases (transform_affiliations pd digest stock_id df)) [
        | inl (s, kept) ↦ ground (
          arith,
          made,
          kept,
          guarded affiliation_aliases "name" (affiliation_of pd digest)
              (unfold affiliation_of in λ w row. ground arith) stock_id df s kept,
        )
        | inr (e, failed) ↦ ground (arith, made, failed)
      ]
  transform-all_titled events stock_id df symbol payload counted made =
      elim (Outcome-cases (transform_events pd digest stock_id df)) [
        | inl (s, kept) ↦ ground (
          arith,
          made,
          kept,
          guarded event_aliases "title" (event_of pd digest)
              (unfold event_of in λ w row. ground arith) stock_id df s kept,
        )
        | inr (e, failed) ↦ ground (arith, made, failed)
      ]
  transform-all_titled news stock_id df symbol payload counted made =
      elim (Outcome-cases (transform_news pd digest stock_id df)) [
        | inl (s, kept) ↦ ground (
          arith,
          made,
          kept,
          guarded news_aliases "title" (news_of pd digest) (unfold news_of in λ w row. ground arith)
              stock_id df s kept,
        )
        | inr (e, failed) ↦ ground (arith, made, failed)
      ]
