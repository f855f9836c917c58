-- ===== src/Pipelines/Loop.antt =====
-- The counting loops against the plain sequence of the operations.
use stock_tracker_data_colle.Pipelines.MarketData
use stock_tracker_data_colle.Pipelines.MarketData.{
  MarketDataDeps, run_vnstock_market_data, checked_chunk_size,
}
use stock_tracker_data_colle.Pipelines.Company
use stock_tracker_data_colle.Pipelines.Company.{CompanyDeps, run_vnstock_company}
use stock_tracker_data_colle.Base.{
  ℕ, zero, suc, ◌+◌, String, ◌≡◌, refl, ap, ◌∙◌, Bool, false, Option, List, [], ◌∷◌, ◌++◌, arith,
  if◌then◌else◌, inl, inr, ltb, not, format, Bool-cases,
}
use stock_tracker_data_colle.Errors.{Exn, is_exception, sink_error, value_error, pipeline_error}
use stock_tracker_data_colle.Exec.{
  Outcome, ok, raised, Exec, is_ok, continue, Outcome-cases, after_cleanup, ◌>>=◌,
}
use stock_tracker_data_colle.Engine.{World}
use stock_tracker_data_colle.Pipelines.{count_failures, for_stocks, verdict, Printer}

-- An outcome that ends the loops: what `except Exception` does not catch.
abbrev pub escapes : Outcome (Unit {0}) → Bool
escapes (ok u) = false
escapes (raised e) = not (is_exception e)

-- The operations in order, to the end or to the first whose outcome escapes: the outcomes of those
-- that ran, and the last world.
module _ {S : Type 0} where
  abbrev pub trace :
      List (Exec (World S) (Unit {0})) → World S → List (Outcome (Unit {0})) × World S
  trace [] w = ([], w)
  trace (operation ∷ operations) w =
      let (outcome, w') = operation w in
      let (outcomes, last) = trace operations w' in
      if escapes outcome then (outcome ∷ [], w') else (outcome ∷ outcomes, last)

  abbrev pub all_operations :
      (String → ℕ → List (Exec (World S) (Unit {0})))
      → List (String × ℕ)
      → List (Exec (World S) (Unit {0}))
  all_operations operations [] = []
  all_operations operations ((symbol, stock_id) ∷ stocks) =
      operations symbol stock_id ++ all_operations operations stocks

abbrev pub failed : List (Outcome (Unit {0})) → ℕ
failed [] = 0
failed (outcome ∷ outcomes) = let n = failed outcomes in if is_ok outcome then n else n + 1

-- What the outcomes come to: the one that escapes, or else none failed, or else the count.
abbrev pub reported : Printer → String → ℕ → List (Outcome (Unit {0})) → Outcome (Unit {0})
reported printer label zero [] = ok tt
reported printer label (suc n) [] = raised (
    pipeline_error
      (format (label ∷ " pipeline incomplete: " ∷ printer.str (suc n) ∷ " operations failed" ∷ [])))
reported printer label n (ok u ∷ outcomes) = reported printer label n outcomes
reported printer label n (raised e ∷ outcomes) =
    let rest = reported printer label (n + 1) outcomes in if is_exception e then rest else raised e

module _ {S : Type 0} (printer : Printer) (label : String) where
  -- what a loop that counted, or raised, comes to
  abbrev concluded : Outcome ℕ × World S → Outcome (Unit {0}) × World S
  concluded (r, w) = continue r (verdict printer label) w

  verdict_of :
      (operations : List (Exec (World S) (Unit {0}))) (n : ℕ) (w : World S)
      → concluded (count_failures operations n w)
        ≡ (reported printer label n (trace operations w).0, (trace operations w).1)
  verdict_of [] zero w = refl
  verdict_of [] (suc n) w = ground arith
  verdict_of (operation ∷ operations) n w = elim (Outcome-cases (operation w).0) [
    | inl (u, done) ↦ ground (arith, done, verdict_of operations n (operation w).1)
    | inr (e, stopped) ↦ elim (Bool-cases (is_exception e)) [
      | inl caught ↦ ground (arith, stopped, caught, verdict_of operations (n + 1) (operation w).1)
      | inr fatal ↦ ground (arith, stopped, fatal)
    ]
  ]

module _ {S : Type 0} where
  count_failures-append :
      (xs ys : List (Exec (World S) (Unit {0}))) (n : ℕ) (w : World S)
      → count_failures (xs ++ ys) n w
        ≡ (let (r, w') = count_failures xs n w in continue r (count_failures ys) w')
  count_failures-append [] ys n w = refl
  count_failures-append (operation ∷ xs) ys n w = elim (Outcome-cases (operation w).0) [
    | inl (u, done) ↦ ground (arith, done, count_failures-append xs ys n (operation w).1)
    | inr (e, stopped) ↦
        ground (arith, stopped, count_failures-append xs ys (n + 1) (operation w).1)
  ]

  for_stocks-all_operations :
      (operations : String → ℕ → List (Exec (World S) (Unit {0}))) (stocks : List (String × ℕ))
      (n : ℕ) (w : World S)
      → for_stocks operations stocks n w ≡ count_failures (all_operations operations stocks) n w
  for_stocks-all_operations operations [] n w = refl
  for_stocks-all_operations operations ((symbol, stock_id) ∷ stocks) n w =
      elim (Outcome-cases (count_failures (operations symbol stock_id) n w).0) [
        | inl (m, done) ↦ ground (
          arith,
          done,
          count_failures-append (operations symbol stock_id) (all_operations operations stocks) n w,
          for_stocks-all_operations operations stocks m
              (count_failures (operations symbol stock_id) n w).1,
        )
        | inr (e, stopped) ↦ ground (
          arith,
          stopped,
          count_failures-append (operations symbol stock_id) (all_operations operations stocks) n w,
        )
      ]

  stocks_of :
      (printer : Printer) (label : String)
      (operations : String → ℕ → List (Exec (World S) (Unit {0}))) (stocks : List (String × ℕ))
      (w : World S)
      → concluded printer label (for_stocks operations stocks 0 w) ≡ (
          let (outcomes, last) = trace (all_operations operations stocks) w in
          (reported printer label 0 outcomes, last))
  stocks_of printer label operations stocks w =
      ap (concluded printer label) (for_stocks-all_operations operations stocks 0 w)
      ∙ verdict_of printer label (all_operations operations stocks) 0 w

  -- The operations of a stock, in the order of the two tuples.
  abbrev pub company_steps :
      CompanyDeps S → (ℕ → Option Exn) → String → ℕ → List (Exec (World S) (Unit {0}))
  company_steps deps fault symbol stock_id =
      Company.sync_stream deps fault symbol stock_id Company.profile
      ∷ Company.sync_stream deps fault symbol stock_id Company.shareholders
      ∷ Company.sync_stream deps fault symbol stock_id Company.officers
      ∷ Company.sync_stream deps fault symbol stock_id Company.affiliations
      ∷ Company.sync_stream deps fault symbol stock_id Company.events
      ∷ Company.sync_stream deps fault symbol stock_id Company.news
      ∷ []

  abbrev pub market_data_steps :
      MarketDataDeps S → (ℕ → Option Exn) → String → ℕ → List (Exec (World S) (Unit {0}))
  market_data_steps deps fault symbol stock_id =
      let size = deps.market_data_chunk_size in
      MarketData.sync_stream deps fault size symbol stock_id MarketData.price_history
      ∷ MarketData.sync_stream deps fault size symbol stock_id MarketData.intraday
      ∷ []

  -- What the pipeline does after the API has answered with the stocks, or has not.
  abbrev pub synced :
      Printer
      → String
      → (String → ℕ → List (Exec (World S) (Unit {0})))
      → Outcome (List (String × ℕ)) × World S
      → Outcome (Unit {0}) × World S
  synced printer label operations (raised e, v) = (raised e, v)
  synced printer label operations (ok stocks, v) =
      let (outcomes, last) = trace (all_operations operations stocks) v in
      (reported printer label 0 outcomes, last)

  synced_of :
      (printer : Printer) (label : String)
      (operations : String → ℕ → List (Exec (World S) (Unit {0})))
      (fetched : Outcome (List (String × ℕ)) × World S)
      → continue fetched.0
          (λ stocks. for_stocks operations stocks 0 >>= verdict printer label)
          fetched.1
        ≡ synced printer label operations fetched
  synced_of printer label operations (raised e, v) = refl
  synced_of printer label operations (ok stocks, v) = stocks_of printer label operations stocks v

  -- The company pipeline raises what the listing of the stocks raises. Else it runs the profile, the
  -- shareholders, the officers, the affiliations, the events and the news of every stock that the API
  -- lists, in order, whatever Exception is raised among them; it ends with the first outcome that is
  -- no Exception, if there is one, and else returns if none failed, and raises a PipelineError that
  -- counts the failures if some did.
  pub run_vnstock_company-trace :
      (deps : CompanyDeps S) (fault : ℕ → Option Exn) (w : World S)
      → run_vnstock_company deps fault w
        ≡ synced deps.printer "Company"
            (company_steps deps fault)
            (deps.fetch_stock_symbol_to_id ("STOCK" ∷ []) w)
  unfolding run_vnstock_company
  run_vnstock_company-trace deps fault w =
      synced_of deps.printer "Company" (company_steps deps fault)
        (deps.fetch_stock_symbol_to_id ("STOCK" ∷ []) w)

  -- The sink is closed, and an exception of the closing replaces the outcome.
  abbrev pub closed :
      Outcome (Unit {0}) → Outcome (Unit {0}) × World S → Outcome (Unit {0}) × World S
  closed outcome (ok u, after) = (outcome, after)
  closed outcome (raised e, after) = (raised e, after)

  -- The market data pipeline refuses to run without RabbitMQ and with chunks of no record, whatever
  -- the API and the operations would do. Otherwise it lists the stocks, and runs the price history and
  -- the intraday trades of every stock in order, whatever Exception is raised among them; it then
  -- closes the sink, however these ended, and ends as the company pipeline does, or with what the
  -- closing raises.
  pub run_vnstock_market_data-trace :
      (deps : MarketDataDeps S) (fault : ℕ → Option Exn) (w : World S)
      → run_vnstock_market_data deps fault w ≡ (
          if not deps.rabbitmq_enabled
          then (raised (sink_error "Market data pipeline requires rabbitmq_enabled=True"), w)
          else if ltb deps.market_data_chunk_size 1
          then (raised (value_error "chunk_size must be positive"), w)
          else let (outcome, last) =
              synced deps.printer "Market data"
                (market_data_steps deps fault)
                (deps.fetch_stock_symbol_to_id ("STOCK" ∷ "ETF" ∷ []) w) in
            closed outcome (deps.close last))
  unfolding run_vnstock_market_data checked_chunk_size MarketData.sync_stream
      MarketData.sync_market_data
  run_vnstock_market_data-trace deps fault w = elim (Bool-cases deps.rabbitmq_enabled) [
    | inr off ↦ rw off refl
    | inl on ↦ elim (Bool-cases (ltb deps.market_data_chunk_size 1)) [
      | inl empty ↦ rw (on, empty) refl
      | inr positive ↦
          rw (on, positive)
            (ap finished (
                synced_of deps.printer "Market data" (market_data_steps deps fault)
                  (deps.fetch_stock_symbol_to_id ("STOCK" ∷ "ETF" ∷ []) w))
              ∙ closing (
                  synced deps.printer "Market data" (market_data_steps deps fault)
                    (deps.fetch_stock_symbol_to_id ("STOCK" ∷ "ETF" ∷ []) w)))
    ]
  ]
    where
      finished : Outcome (Unit {0}) × World S → Outcome (Unit {0}) × World S
      finished (outcome, last) = after_cleanup outcome (deps.close last)

      closing :
          (r : Outcome (Unit {0}) × World S)
          → after_cleanup r.0 (deps.close r.1) ≡ closed r.0 (deps.close r.1)
      closing (outcome, last) = elim (Outcome-cases (deps.close last).0) [
        | inl (u, done) ↦ ground (arith, done)
        | inr (e, raises) ↦ ground (arith, raises)
      ]
