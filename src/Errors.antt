-- ===== src/Errors.antt =====
-- app/core/exceptions.py, with the built-in and library exceptions that the code meets.
use stock_tracker_data_colle.Base.{String, Bool, true, false}

pub data Exn : Type 0 where
  pipeline_error : String → Exn
  pipeline_busy_error : String → Exn
  configuration_error : String → Exn
  sink_error : String → Exn
  archive_error : String → Exn
  source_error : String → Exn
  -- built-in exceptions
  value_error : String → Exn
  runtime_error : String → Exn
  key_error : String → Exn
  -- asyncio.CancelledError, which is no `Exception`
  cancelled_error : Exn
  -- SystemExit, which is no `Exception` either
  system_exit : String → Exn
  -- fastapi's HTTPException: the status code and the detail
  http_exception : String → String → Exn
  -- httpx.TransportError with its timeouts, and OSError with ConnectionError
  transport_error : String → Exn
  -- an error of the database, an HTTP status, or an error of another library
  foreign_error : String → Exn

-- `except Exception`
abbrev pub is_exception : Exn → Bool
is_exception cancelled_error = false
is_exception (system_exit m) = false
is_exception _ = true

-- `except PipelineError`: PipelineBusyError is a subclass.
abbrev pub is_pipeline_error : Exn → Bool
is_pipeline_error (pipeline_error m) = true
is_pipeline_error (pipeline_busy_error m) = true
is_pipeline_error _ = false

-- `except SourceError`
abbrev pub is_source_error : Exn → Bool
is_source_error (source_error m) = true
is_source_error _ = false

-- `except SystemExit`
abbrev pub is_system_exit : Exn → Bool
is_system_exit (system_exit m) = true
is_system_exit _ = false

-- `except ArchiveError`
abbrev pub is_archive_error : Exn → Bool
is_archive_error (archive_error m) = true
is_archive_error _ = false

-- str(exc)
abbrev pub message : Exn → String
message (pipeline_error m) = m
message (pipeline_busy_error m) = m
message (configuration_error m) = m
message (sink_error m) = m
message (archive_error m) = m
message (source_error m) = m
message (value_error m) = m
message (runtime_error m) = m
message (key_error m) = m
message cancelled_error = ""
message (system_exit m) = m
message (http_exception code m) = m
message (transport_error m) = m
message (foreign_error m) = m
