-- ===== src/Tests/Source.antt =====
-- The theorems on the source, the RabbitMQ sink, the book of the runs and the lifespan, at small
-- services.
use stock_tracker_data_colle.Base.{
  ℕ, suc, ◌+◌, ◌-◌, ◌*◌, ap, drop, String, ◌≡◌, refl, true, false, none, some, List, [], ◌∷◌, arith,
  All, take,
}
use stock_tracker_data_colle.Base.Texts.{strip, upper, lower, is_space}
use stock_tracker_data_colle.Exec.{ok, raised, ◌>>◌, pure, raise, modify}
use stock_tracker_data_colle.Errors.{system_exit, archive_error}
use stock_tracker_data_colle.Config.{Settings, default_settings}
use stock_tracker_data_colle.Frames.{Frame}
use stock_tracker_data_colle.Schemas.{IndexBasketRow}
use stock_tracker_data_colle.Vnstock.{call, run_in_thread, checked_frame}
use stock_tracker_data_colle.Vnstock.Calls.{Answers, call-Answers}
use stock_tracker_data_colle.Vnstock.Catalog.{
  is_nil, build_indices_catalog, supported_index_groups, symbols_by_group, constituents,
  catalog_rows,
}
use stock_tracker_data_colle.Vnstock.Baskets.{AreMembers, build_indices_catalog-AreMembers}
use stock_tracker_data_colle.Vnstock.Quotes.{quote_intraday}
use stock_tracker_data_colle.Vnstock.Pages.{Feed, quote_intraday-take}
use stock_tracker_data_colle.Rabbit.{RabbitMqSink, ensure_connected}
use stock_tracker_data_colle.Rabbit.Connection.{
  publish_all, deliver_all, publish_all-ensure_connected,
}
use stock_tracker_data_colle.Control.Store.Book.{
  Command, start, beat, finish, recover, wait, perform, specified, replies, book_of,
}
use stock_tracker_data_colle.Control.Store.Lifecycle.{replies-specified}
use stock_tracker_data_colle.Lifespan.{Services, Process, lifespan}
use stock_tracker_data_colle.Lifespan.Release.{IsIdle, lifespan-IsIdle}
use stock_tracker_data_colle.Tests.Provider.{sdk, broker, trades}
use stock_tracker_data_colle.Tests.{no_fault, database}

abbrev settings : Settings
settings = record default_settings {
  rabbitmq_enabled = true;
  vnstock_index_group_names = "HOSE Indices" ∷ [];
  vnstock_extra_index_symbols = [];
  vnstock_intraday_page_size = 2;
  vnstock_intraday_max_pages = 5;
}

-- A SystemExit of the SDK.
call-Answers_example :
    Answers (raised (system_exit "limit")) (call sdk "industries_icb" (sdk.industries "vci") 0).0
    × ((call sdk "industries_icb" (sdk.industries "vci") 0).1 ≡ 2)
call-Answers_example =
    call-Answers sdk "industries_icb" (sdk.industries "vci") 0 1 2 (raised (system_exit "limit"))
      refl refl

abbrev vn30 : IndexBasketRow
vn30 = record {
  symbol = "VN30";
  name = "VN30";
  description = none;
  group = some "HOSE Indices";
  constituent_symbols = "FPT" ∷ [];
}

build_indices_catalog-AreMembers_example :
    (is_nil (vn30 ∷ []) ≡ false) × All (λ row. AreMembers row.constituent_symbols) (vn30 ∷ [])
unfolding build_indices_catalog run_in_thread supported_index_groups call checked_frame
    symbols_by_group constituents catalog_rows strip upper lower is_space
build_indices_catalog-AreMembers_example =
    build_indices_catalog-AreMembers sdk settings 0 2 (vn30 ∷ []) refl

abbrev page_at : ℕ → Frame String
page_at k = record { columns = "price" ∷ []; rows = take 2 (drop (k * 2) trades); source = none }

abbrev feed : Feed sdk settings "FPT"
feed = record {
  column = "price";
  columns = [];
  source = none;
  trades = trades;
  grants = λ w. (w + 1, refl);
  serves = λ page w.
      let e : suc page - 1 ≡ page = omega arith in
      (page_at (suc page - 1), w, refl, ap (λ k. some (page_at k)) e);
  concat-rows = λ first rest same. refl;
  no_frame-rows = refl;
}

quote_intraday-take_example :
    (df : Frame String) × (last : ℕ) × (quote_intraday sdk settings "FPT" 0 ≡ (ok df, last))
    × (df.rows ≡ take 10 trades)
quote_intraday-take_example = quote_intraday-take sdk settings "FPT" feed (omega arith) 0

abbrev idle : RabbitMqSink (List String)
idle = record { connection = none; channel = none; exchange = none; world = [] }

publish_all-ensure_connected_example :
    publish_all broker settings "stock_intraday.sync" ("a" ∷ "b" ∷ []) idle
    ≡ (ensure_connected broker settings
          >> deliver_all broker settings "stock_intraday.sync" ("a" ∷ "b" ∷ []))
        idle
publish_all-ensure_connected_example =
    publish_all-ensure_connected broker settings "stock_intraday.sync" "a" ("b" ∷ []) idle refl

abbrev commands : List Command
commands =
    start "r3" "vnstock_company" "api" (some "r1")
    ∷ beat "r2"
    ∷ wait 70 70
    ∷ recover 60
    ∷ finish "r3" "completed" none
    ∷ start "r3" "vnstock_company" "api" none
    ∷ []

replies-specified_example :
    let (given, last) = replies (perform no_fault) commands database in
    replies specified commands (book_of database) ≡ (given, book_of last)
replies-specified_example = replies-specified no_fault (λ n. refl) commands database refl

-- Services of which the bucket of the archive cannot be reached.
abbrev services : Services ℕ
services = record {
  new_settings =
      pure (record settings { raw_archive_enabled = true; control_plane_enabled = true });
  new_limiter = λ s. pure tt;
  new_jobs = λ n. pure tt;
  open_client = λ timeout. pure tt;
  new_auth = λ s. pure tt;
  connect_store = λ url. pure tt;
  recover_stale_runs = λ seconds. pure tt;
  new_archive = λ s. pure tt;
  ensure_bucket = raise (archive_error "unreachable");
  new_scheduler = λ s. pure tt;
  add_cron_job = λ job_id hour minute. pure tt;
  start_scheduler = pure tt;
  release = λ callback. modify λ n. n + 1;
  is_closed = λ n. false;
  ping_store = pure tt;
  ping_archive = pure tt;
}

abbrev stopped : Process ℕ
stopped = record {
  settings = false;
  rate_limiter = false;
  auth = false;
  http_client = false;
  scheduler = false;
  pipeline_store = false;
  raw_archive = false;
  engine_store = false;
  stack = [];
  world = 0;
}

lifespan-IsIdle_example : IsIdle (lifespan services (pure tt) stopped).1
lifespan-IsIdle_example =
    lifespan-IsIdle services (pure tt) stopped (refl, refl, refl, refl, refl, refl)
