-- ===== src/Archive/Records.antt =====
-- The records of app/archive/raw_archive.py, and what RawArchive calls.
use stock_tracker_data_colle.Base.{ℕ, String, Option}
use stock_tracker_data_colle.Exec.{Outcome, Exec}
use stock_tracker_data_colle.Json.{Json}
use stock_tracker_data_colle.Engine.{World}

-- What a source returned: a DataFrame, a Series, a list, tuple or set, or another value; the last
-- two by their JSON-safe form. `Frame` and `Series` stand
-- for those of pandas.
pub data Payload (Frame Series : Type 0) : Type 0 where
  frame : Frame → Payload Frame Series
  series : Series → Payload Frame Series
  sequence : Json → ℕ → Payload Frame Series
  other : Json → Payload Frame Series

pub record Metadata : Type 0 where
  pub run_id : String
  pub pipeline : String
  pub operation : String
  pub source : Option String
  pub schema_version : String
  pub captured_at : String
  pub parameters : Json
  pub payload_format : String
  pub state : String

pub record Envelope : Type 0 where
  pub metadata : Metadata
  pub payload : Json

pub record RawArchiveObject : Type 0 where
  pub bucket : String
  pub key : String
  pub checksum_sha256 : String
  pub row_count : Option ℕ
  pub size_bytes : ℕ

pub record RawReplayObject (Frame Series : Type 0) : Type 0 where
  pub operation : String
  pub source : Option String
  pub parameters : Json
  pub payload : Payload Frame Series
  pub checksum_sha256 : String

-- The settings of the archive, and what it calls.
pub record ArchiveDeps (S : Type 0) : Type 1 where
  pub Frame : Type 0
  pub Series : Type 0
  pub Bytes : Type 0
  pub raw_archive_bucket : String
  -- raw_archive_prefix.strip("/")
  pub prefix : String
  pub raw_archive_schema_version : String
  -- len(df), and df.to_json(orient="table", …) parsed again
  pub rows : Frame → ℕ
  pub to_json : Frame → Outcome (Option Json)
  -- pd.read_json(…, orient="table")
  pub read_json : Json → Outcome Frame
  -- len(series), series.tolist() and pd.Series(…)
  pub series_length : Series → ℕ
  pub tolist : Series → Json
  pub new_series : Json → Outcome Series
  -- the texts of a capture time: isoformat(), date().isoformat() and strftime("%H%M%S%f")
  pub isoformat : ℕ → String
  pub date : ℕ → String
  pub stamp : ℕ → String
  -- _SAFE_KEY.sub("_", operation.strip())
  pub safe_key : String → String
  pub dumps : Json → String
  -- json.dumps(envelope).encode("utf-8"), and json.loads with the reads of its fields
  pub encode : Envelope → Bytes
  pub decode : Bytes → Outcome Envelope
  pub sha256 : Bytes → String
  pub compress : Bytes → Bytes
  pub decompress : Bytes → Outcome Bytes
  pub size : Bytes → ℕ
  -- put_object and get_object of the bucket
  pub put_object : String → Bytes → Exec (World S) (Unit {0})
  pub get_object : String → Exec (World S) Bytes
