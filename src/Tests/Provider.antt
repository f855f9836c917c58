-- ===== src/Tests/Provider.antt =====
-- A provider whose cells are texts, an SDK and a broker, at which the theorems are applied.
use stock_tracker_data_colle.Base.{
  ℕ, ◌+◌, String, true, false, none, some, List, [], ◌∷◌, ◌==◌, take, drop, ◌*◌, ◌-◌, map, format,
}
use stock_tracker_data_colle.Base.Texts.{text_length}
use stock_tracker_data_colle.Exec.{ok, raised, pure, modify}
use stock_tracker_data_colle.Errors.{system_exit}
use stock_tracker_data_colle.Frames.{Pandas, Row, Frame}
use stock_tracker_data_colle.Pipelines.Chunks.{concat}
use stock_tracker_data_colle.Vnstock.{Sdk}
use stock_tracker_data_colle.Rabbit.{Broker}

abbrev pub texts : Pandas
texts = record {
  Cell = String;
  Number = ℕ;
  Integer = ℕ;
  Stamp = ℕ;
  Time = ℕ;
  Date = ℕ;
  is_na = λ v. v == "";
  str = λ v. v;
  as_text = λ v. some v;
  as_real = λ v. none;
  float = λ v. some (text_length v);
  is_finite = λ n. true;
  int = λ n. n;
  is_large = λ n. false;
  from_unix = λ ms n. some n;
  timestamp = λ v. some 2026;
  strptime_dmy = λ s. none;
  of_time = λ t. some t;
  is_nat = λ s. false;
  to_local = λ s. some s;
  date_of = λ t. t;
  midnight = λ d. d;
  year = λ t. t;
  is_negative = λ n. false;
  natural = λ n. some n;
  as_integer_float = λ v. none;
  is_nan = λ n. false;
  has_str = λ cells. true;
  str_int = λ n. "1";
}

abbrev pub table : List String → List (List (String × String)) → Frame String
table columns rows = record {
  columns = columns;
  rows = map (λ cells. record { cells = cells }) rows;
  source = some "VCI";
}

abbrev pub trade : String → Row String
trade price = record { cells = ("price", price) ∷ [] }

abbrev pub trades : List (Row String)
trades = trade "1" ∷ trade "22" ∷ trade "333" ∷ []

-- The state counts the calls; a page has two trades.
abbrev pub sdk : Sdk texts ℕ
sdk = record {
  Raw = Frame String;
  as_frame = λ raw. some raw;
  as_series = λ raw. none;
  acquire = λ service. modify λ calls. calls + 1;
  index_metadata = pure ((("HOSE Indices", "VN30" ∷ "VNX" ∷ []) ∷ []), []);
  industries = λ source. λ calls. (raised (system_exit "limit"), calls + 1);
  list_by_exchange = λ source. pure (table [] []);
  list_by_group = λ group source.
      pure (table ("symbol" ∷ []) ((("symbol", "fpt ") ∷ []) ∷ (("symbol", "FPT") ∷ []) ∷ []));
  groups = λ source. pure (table ("group_name" ∷ []) ((("group_name", "VN30") ∷ []) ∷ []));
  company = λ symbol method source. pure (table [] []);
  ohlcv = λ symbol start stop interval source. pure (table [] []);
  trades = λ symbol page page_size source. pure (record {
    columns = "price" ∷ [];
    rows = take page_size (drop ((page - 1) * page_size) trades);
    source = none;
  });
  concat_frames = λ frames. record {
    columns = "price" ∷ [];
    rows = concat (map (λ f. f.rows) frames);
    source = none;
  };
  no_frame = table [] [];
  today = pure 739_000;
  fromisoformat = λ text. none;
  isoformat = λ day. "2026-01-01";
}

-- The state is the log of what the broker was asked.
abbrev pub broker : Broker (List String) String
broker = record {
  acquire = λ service. modify λ log. "acquire" ∷ log;
  connect_robust = λ url log. (ok 1, "connect" ∷ log);
  channel = λ connection log. (ok 2, "channel" ∷ log);
  declare_exchange = λ channel name ex_type log. (ok 3, "exchange" ∷ log);
  publish = λ exchange body routing_key. modify λ log. body ∷ log;
  close_channel = λ channel. modify λ log. "close channel" ∷ log;
  close_connection = λ connection. modify λ log. "close" ∷ log;
  dumps = λ m. m;
  dumps_all = format;
}
