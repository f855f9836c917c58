-- ===== src/Tests/Archive.antt =====
-- The theorems on the raw archive, with a bucket that is a dictionary.
use stock_tracker_data_colle.Base.{
  ℕ, String, ◌≡◌, ◌⊎◌, refl, true, false, none, some, List, [], lookup, insert,
}
use stock_tracker_data_colle.Errors.{
  Exn, foreign_error, archive_error, is_archive_error, is_exception,
}
use stock_tracker_data_colle.Exec.{Outcome, ok, raised, Exec}
use stock_tracker_data_colle.Json.{null, text}
use stock_tracker_data_colle.Control.Store
use stock_tracker_data_colle.Engine.{World, run_context}
use stock_tracker_data_colle.Archive.{
  Envelope, ArchiveDeps, RawArchiveObject, sequence, capture, load,
}
use stock_tracker_data_colle.Archive.Load.{load_raises}
use stock_tracker_data_colle.Tests.{no_fault, database}

abbrev Bucket : Type 0
Bucket = List (String × Envelope)

abbrev get_object : String → Exec (World Bucket) Envelope
get_object key w = elim (lookup key w.outside) [
  | none ↦ (raised (foreign_error "NoSuchKey"), w)
  | some body ↦ (ok body, w)
]

abbrev archive : ArchiveDeps Bucket
archive = record {
  Frame = ℕ;
  Series = ℕ;
  Bytes = Envelope;
  raw_archive_bucket = "stocktracker-raw";
  prefix = "raw";
  raw_archive_schema_version = "1";
  rows = λ df. df;
  to_json = λ df. ok (some null);
  read_json = λ j. ok 1;
  series_length = λ items. items;
  tolist = λ items. null;
  new_series = λ j. ok 1;
  isoformat = λ t. "2026-09-01T00:00:00";
  date = λ t. "2026-09-01";
  stamp = λ t. "000000000000";
  safe_key = λ operation. operation;
  dumps = λ j. "{}";
  encode = λ e. e;
  decode = λ e. ok e;
  sha256 = λ e. e.metadata.operation;
  compress = λ e. e;
  decompress = λ e. ok e;
  size = λ e. 1;
  put_object = λ key body w. (ok tt, record w { outside = insert key body w.outside });
  get_object = get_object;
}

abbrev capturing : World Bucket
capturing = record {
  durable = true;
  database = database;
  locks = [];
  context = some (run_context "vnstock_company" "r1" none []);
  heartbeats = [];
  metrics = none;
  monotonic = 0;
  time = 0;
  outside = [];
}

abbrev captured : Outcome RawArchiveObject × World Bucket
captured =
    capture archive no_fault "company_news" (sequence (text "a") 1) (some "VCI") null "9f" capturing

abbrev an_archived : RawArchiveObject
an_archived = record {
  bucket = "stocktracker-raw";
  key =
      "raw/pipeline=vnstock_company/operation=company_news/date=2026-09-01/run_id=r1/capture=000000000000-9f.json.gz";
  checksum_sha256 = "company_news";
  row_count = some 1;
  size_bytes = 1;
}

abbrev missing : Exn
missing = archive_error "Unable to load raw archive object raw/none: NoSuchKey"

load_raises_example : (is_archive_error missing ≡ true) ⊎ (is_exception missing ≡ false)
unfolding load
load_raises_example = load_raises archive "raw/none" none capturing missing refl
