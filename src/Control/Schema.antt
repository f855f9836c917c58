-- ===== src/Control/Schema.antt =====
-- alembic/versions/202608300001_create_collector_control_plane.py: the tables of the schema
-- `collector`, a row to a record. A UUID and a JSON document are their texts; a time is a reading
-- of the clock that wrote it. The `bigserial` keys, which no query of the program reads, are left out.
use stock_tracker_data_colle.Base.{ℕ, String, Bool, List, Option}

pub record PipelineRun : Type 0 where
  pub id : String
  pub pipeline : String
  pub status : String
  pub trigger : String
  pub submitted_at : ℕ
  pub started_at : Option ℕ
  pub heartbeat_at : Option ℕ
  pub finished_at : Option ℕ
  pub error : Option String
  pub resume_of : Option String

pub record PipelineStep : Type 0 where
  pub run_id : String
  pub step_key : String
  pub status : String
  pub attempt : ℕ
  pub started_at : ℕ
  pub finished_at : Option ℕ
  pub error : Option String
  -- the documents merged by `||`, the oldest first
  pub metadata : List String

pub record Watermark : Type 0 where
  pub pipeline : String
  pub stream : String
  pub partition_key : String
  pub cursor : String
  pub source : Option String
  pub run_id : Option String
  pub updated_at : ℕ

pub record RawObject : Type 0 where
  pub run_id : String
  pub pipeline : String
  pub operation : String
  pub object_key : String
  pub checksum_sha256 : String
  pub row_count : Option ℕ
  pub source : Option String
  pub schema_version : String
  pub parameters : String

-- The PipelineStore object with the database behind it.
pub record Database : Type 0 where
  -- `self._pool is not None`
  pub connected : Bool
  -- what `now()` returns, and datetime.now(UTC) of the process
  pub clock : ℕ
  pub wall_clock : ℕ
  -- the queries sent so far: the environment decides which of them fail
  pub queries : ℕ
  -- the session advisory locks that are held, by this collector or another
  pub advisory_locks : List String
  pub pipeline_runs : List PipelineRun
  pub pipeline_steps : List PipelineStep
  pub watermarks : List Watermark
  pub raw_objects : List RawObject
