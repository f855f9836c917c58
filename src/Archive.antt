-- ===== src/Archive.antt =====
-- app/archive/raw_archive.py: capture and load of RawArchive. The object store, gzip, SHA-256, the
-- JSON text and pandas are the fields of a record; the archive's store is the engine's.
pub mod Records
pub mod Load
pub mod Bucket
use stock_tracker_data_colle.Base.{
  ℕ, eqb, String, Bool, true, false, not, Option, none, some, List, [], ◌∷◌, ◌==◌, if◌then◌else◌,
  format,
}
use stock_tracker_data_colle.Errors.{Exn, archive_error, is_exception, is_archive_error, message}
use stock_tracker_data_colle.Exec.{
  Outcome, ok, raised, Exec, pure, raise, lift, try_except, ◌>>=◌, ◌>>◌,
}
use stock_tracker_data_colle.Json.{Json}
use stock_tracker_data_colle.Control.Context.{PipelineRunContext}
use stock_tracker_data_colle.Control.Schema.{RawObject}
use stock_tracker_data_colle.Control.Store
use stock_tracker_data_colle.Engine.{World, on_store, when}
pub use Records.*

module _ {S : Type 0} (deps : ArchiveDeps S) where
  -- _serialize_payload
  unfoldable pub serialize_payload :
      Payload deps.Frame deps.Series → Outcome (String × Json × Option ℕ)
  serialize_payload (frame df) = elim (deps.to_json df) [
    | raised e ↦ raised e
    | ok none ↦ raised (archive_error "Unable to serialize DataFrame for raw archive")
    | ok (some value) ↦ ok ("pandas.table", value, some (deps.rows df))
  ]
  serialize_payload (series items) =
      ok ("pandas.series", deps.tolist items, some (deps.series_length items))
  serialize_payload (sequence value n) = ok ("json", value, some n)
  serialize_payload (other value) = ok ("json", value, none)

  -- "empty" if row_count == 0 else "data"
  abbrev pub state_of : Option ℕ → String
  state_of none = "data"
  state_of (some n) = if eqb n 0 then "empty" else "data"

  abbrev pub object_key : PipelineRunContext → String → ℕ → String → String
  object_key context operation captured_at unique = format (
      deps.prefix
      ∷ "/pipeline="
      ∷ context.pipeline
      ∷ "/operation="
      ∷ deps.safe_key operation
      ∷ "/date="
      ∷ deps.date captured_at
      ∷ "/run_id="
      ∷ context.run_id
      ∷ "/capture="
      ∷ deps.stamp captured_at
      ∷ "-"
      ∷ unique
      ∷ ".json.gz"
      ∷ [])

  abbrev pub envelope_of :
      PipelineRunContext → String → Option String → Json → ℕ → String × Json × Option ℕ → Envelope
  envelope_of context operation source parameters captured_at (payload_format, value, row_count) =
      record {
        metadata = record {
          run_id = context.run_id;
          pipeline = context.pipeline;
          operation = operation;
          source = source;
          schema_version = deps.raw_archive_schema_version;
          captured_at = deps.isoformat captured_at;
          parameters = parameters;
          payload_format = payload_format;
          state = state_of row_count;
        };
        payload = value;
      }

  abbrev pub index_row :
      PipelineRunContext → String → Option String → Json → String → String → Option ℕ → RawObject
  index_row context operation source parameters key checksum row_count = record {
    run_id = context.run_id;
    pipeline = context.pipeline;
    operation = operation;
    object_key = key;
    checksum_sha256 = checksum;
    row_count = row_count;
    source = source;
    schema_version = deps.raw_archive_schema_version;
    parameters = deps.dumps parameters;
  }

  -- `except Exception as exc: raise ArchiveError(f"{text}{exc}")`
  abbrev pub as_archive_error : {A : Type 0} → String → Exn → Exec (World S) A
  as_archive_error text e =
      raise (if is_exception e then archive_error (format (text ∷ message e ∷ [])) else e)

  module _ (fault : ℕ → Option Exn) where
    -- the `try` of capture: the upload, and the row of the archive index
    unfoldable pub upload :
        PipelineRunContext
        → String
        → Option String
        → Json
        → String
        → deps.Bytes
        → Option ℕ
        → Exec (World S) (Unit {0})
    upload context operation source parameters key body row_count =
        try_except
          (do
            deps.put_object key (deps.compress body)
            λ w.
                when w.durable
                  (on_store (
                    Store.record_raw_object fault (
                      index_row context operation source parameters key (deps.sha256 body)
                        row_count)))
                  w)
          (as_archive_error (format ("Raw archive capture failed for " ∷ operation ∷ ": " ∷ [])))

    abbrev pub capture_in :
        PipelineRunContext
        → String
        → Payload deps.Frame deps.Series
        → Option String
        → Json
        → ℕ
        → String
        → Exec (World S) RawArchiveObject
    capture_in context operation payload source parameters captured_at unique = do
      serialized ← lift (serialize_payload payload)
      upload context operation source parameters (object_key context operation captured_at unique)
          (deps.encode (envelope_of context operation source parameters captured_at serialized))
          serialized.2
      pure (
          let body =
            deps.encode (envelope_of context operation source parameters captured_at serialized) in
          record {
            bucket = deps.raw_archive_bucket;
            key = object_key context operation captured_at unique;
            checksum_sha256 = deps.sha256 body;
            row_count = serialized.2;
            size_bytes = deps.size (deps.compress body);
          })

    -- capture; `unique` is uuid4().hex[:8]
    unfoldable pub capture :
        String
        → Payload deps.Frame deps.Series
        → Option String
        → Json
        → String
        → Exec (World S) RawArchiveObject
    capture operation payload source parameters unique w = elim w.context [
      | none ↦
          (raised (archive_error "Raw archive capture requires an active pipeline run context"), w)
      | some context ↦ capture_in context operation payload source parameters w.time unique w
    ]

  -- the payload that load gives back
  abbrev pub restore : String → Json → Outcome (Payload deps.Frame deps.Series)
  restore payload_format value =
      if payload_format == "pandas.table"
      then elim (deps.read_json value) [ ok df ↦ ok (frame df) | raised e ↦ raised e ]
      else if payload_format == "pandas.series"
      then elim (deps.new_series value) [ ok items ↦ ok (series items) | raised e ↦ raised e ]
      else ok (other value)

  abbrev pub checked : String → Option String → String → Outcome (Unit {0})
  checked key none checksum = ok tt
  checked key (some expected) checksum =
      if checksum == expected
      then ok tt
      else raised (archive_error (format ("Raw archive checksum mismatch for " ∷ key ∷ [])))

  abbrev pub replay :
      Metadata → Payload deps.Frame deps.Series → String → RawReplayObject deps.Frame deps.Series
  replay metadata payload checksum = record {
    operation = metadata.operation;
    source = metadata.source;
    parameters = metadata.parameters;
    payload = payload;
    checksum_sha256 = checksum;
  }

  -- the `try` of load, and its two `except` clauses
  unfoldable pub load :
      String → Option String → Exec (World S) (RawReplayObject deps.Frame deps.Series)
  load key expected_checksum =
      try_except
        (do
          compressed ← deps.get_object key
          body ← lift (deps.decompress compressed)
          lift (checked key expected_checksum (deps.sha256 body))
          envelope ← lift (deps.decode body)
          payload ← lift (restore envelope.metadata.payload_format envelope.payload)
          pure (replay envelope.metadata payload (deps.sha256 body)))
        (λ e.
          if is_archive_error e
          then raise e
          else as_archive_error (format ("Unable to load raw archive object " ∷ key ∷ ": " ∷ [])) e)
