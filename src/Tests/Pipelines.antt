-- ===== src/Tests/Pipelines.antt =====
-- The theorems on the pipelines, with clients that fail for one stock.
use stock_tracker_data_colle.Base.{
  ℕ, String, ◌≡◌, refl, true, false, none, List, [], ◌∷◌, ◌==◌, if◌then◌else◌,
}
use stock_tracker_data_colle.Errors.{source_error, pipeline_error}
use stock_tracker_data_colle.Exec.{ok, raised, Exec, pure, raise, modify}
use stock_tracker_data_colle.Engine
use stock_tracker_data_colle.Engine.{World}
use stock_tracker_data_colle.Pipelines.{Printer}
use stock_tracker_data_colle.Pipelines.Company
use stock_tracker_data_colle.Pipelines.Company.{
  CompanyDeps, company_operations, run_vnstock_company, sync_company,
}
use stock_tracker_data_colle.Pipelines.MarketData
use stock_tracker_data_colle.Pipelines.MarketData.{
  MarketDataDeps, market_data_operations, run_vnstock_market_data, chunks,
}
use stock_tracker_data_colle.Pipelines.Loop.{
  run_vnstock_company-trace, run_vnstock_market_data-trace, synced, closed, company_steps,
  market_data_steps,
}
use stock_tracker_data_colle.Pipelines.Snapshots.{IsComplete, sync_company-IsComplete}
use stock_tracker_data_colle.Tests.{no_fault, world}

abbrev numbers : List ℕ
numbers = 1 ∷ 2 ∷ 3 ∷ 4 ∷ 5 ∷ []

abbrev printer : Printer
printer = record { str = λ n. "6"; isoformat = λ n. "now"; dumps = λ fields. "{}" }

-- The sink keeps what it was sent; the stock FLC has no data.
abbrev Sent : Type 0
Sent = List (String × ℕ)

abbrev sent : String → ℕ → Exec (World Sent) (Unit {0})
sent path n = modify λ w. record w { outside = (path, n) ∷ w.outside }

abbrev company_deps : CompanyDeps Sent
company_deps = record {
  Frame = ℕ;
  Payload = ℕ;
  rows = λ df. df;
  items = λ payload. payload;
  fetch_stock_symbol_to_id = λ types. pure (("FLC", 2) ∷ []);
  extract = λ operation symbol. if symbol == "FLC" then raise (source_error "empty") else pure 4;
  transform = λ stream stock_id df symbol. ok df;
  path = λ stream stock_id. Company.stream_name stream;
  send_put = sent;
  vnstock_company_source = "VCI";
  printer = printer;
}

-- An engine without a control plane: a step runs its block.
abbrev sink_world : World Sent
sink_world = record {
  durable = false;
  database = world.database;
  locks = [];
  context = none;
  heartbeats = [];
  metrics = none;
  monotonic = 0;
  time = 0;
  outside = [];
}

-- All six operations of FLC fail, and the engine has no control plane.
run_vnstock_company-trace_example :
    run_vnstock_company company_deps no_fault sink_world
    ≡ synced printer "Company"
        (company_steps company_deps no_fault)
        (ok (("FLC", 2) ∷ []), sink_world)
run_vnstock_company-trace_example = run_vnstock_company-trace company_deps no_fault sink_world

run_company :
    run_vnstock_company company_deps no_fault sink_world
    ≡ (raised (pipeline_error "Company pipeline incomplete: 6 operations failed"), sink_world)
unfolding run_vnstock_company Company.sync_stream Engine.step Engine.open_step Engine.close_step
    sync_company
run_company = refl

sync_company-IsComplete_example :
    (df : ℕ) × (payload : ℕ) × (v : World Sent) × (company_deps.extract "company_news" "VIC"
        sink_world
      ≡ (ok df, v))
    × (company_deps.transform Company.news 1 df "VIC" ≡ ok payload)
    × IsComplete Company.news payload df
    × (sync_company company_deps Company.news "VIC" 1 sink_world ≡ sent "news" payload v)
unfolding sync_company
sync_company-IsComplete_example =
    sync_company-IsComplete company_deps Company.news "VIC" 1 sink_world refl

abbrev market_deps : MarketDataDeps Sent
market_deps = record {
  Frame = ℕ;
  Message = List ℕ;
  rows = λ df. df;
  fetch_stock_symbol_to_id = λ types. pure (("VIC", 1) ∷ []);
  extract = λ stream symbol. pure 3;
  transform = λ chunk_size stream stock_id df. ok (chunks (1 ∷ 2 ∷ 3 ∷ []) chunk_size);
  routing_key = MarketData.stream_name;
  publish_message = λ routing_key records. sent routing_key 1;
  close = sent "closed" 0;
  rabbitmq_enabled = true;
  market_data_chunk_size = 2;
  vnstock_quote_source = "VCI";
  printer = printer;
}

run_vnstock_market_data-trace_example : run_vnstock_market_data market_deps no_fault sink_world ≡ (
    let (outcome, last) =
      synced printer "Market data"
        (market_data_steps market_deps no_fault)
        (ok (("VIC", 1) ∷ []), sink_world) in
    closed outcome (sent "closed" 0 last))
run_vnstock_market_data-trace_example =
    run_vnstock_market_data-trace market_deps no_fault sink_world

run_market_data :
    (run_vnstock_market_data market_deps no_fault sink_world).1.outside
    ≡ ("closed", 0)
      ∷ ("intraday", 1)
      ∷ ("intraday", 1)
      ∷ ("price_history", 1)
      ∷ ("price_history", 1)
      ∷ []
unfolding run_vnstock_market_data MarketData.checked_chunk_size MarketData.sync_stream Engine.step
    Engine.open_step Engine.close_step MarketData.sync_market_data Engine.put_watermark chunks
run_market_data = refl
