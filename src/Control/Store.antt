-- ===== src/Control/Store.antt =====
-- app/control/store.py: each method of PipelineStore is an action on the database. The SQL
-- statements are functions on the tables, with the primary keys, the unique constraints and the
-- references of the migration.
pub mod Rows
pub mod Runs
pub mod Marks
pub mod Steps
pub mod Book
pub mod Lifecycle
pub mod Constraints
pub mod Integrity
use stock_tracker_data_colle.Base.{
  ℕ, ◌+◌, String, Bool, true, false, not, ◌&&◌, Option, none, some, List, [], ◌∷◌, ◌++◌, map, ltb,
  ◌==◌, if◌then◌else◌, length, contains, format, select, first, update_where, exists,
}
use stock_tracker_data_colle.Errors.{Exn, runtime_error, value_error, foreign_error}
use stock_tracker_data_colle.Exec.{ok, raised, Exec, pure, raise, ◌>>◌}
use stock_tracker_data_colle.Control.Schema.{
  PipelineRun, PipelineStep, Watermark, RawObject, Database,
}
unfoldable pub use Rows.*

-- connect; `refused` is what create_pool raises, if it raises
unfoldable pub connect : Option Exn → Exec Database (Unit {0})
connect refused d =
    if d.connected
    then (ok tt, d)
    else elim refused [ some e ↦ (raised e, d) | none ↦ (ok tt, record d { connected = true }) ]

-- close; `failed` is what the pool raises when it closes, if it raises
unfoldable pub close : Option Exn → Exec Database (Unit {0})
close failed d =
    if d.connected
    then (elim failed [ some e ↦ (raised e, d) | none ↦ (ok tt, record d { connected = false }) ])
    else (ok tt, d)

-- _require_pool
unfoldable pub require_pool : Exec Database (Unit {0})
require_pool d =
    if d.connected then (ok tt, d) else (raised (runtime_error "PipelineStore is not connected"), d)

-- `fault n` is the error, if any, with which the environment fails the n-th query.
module _ (fault : ℕ → Option Exn) where
  -- One query: it fails, with no effect, or runs.
  unfoldable pub query : {A : Type 0} → Exec Database A → Exec Database A
  query q d =
      let counted : Database = record d { queries = d.queries + 1 } in
      elim (fault d.queries) [ some e ↦ (raised e, counted) | none ↦ q counted ]

  unfoldable pub ping : Exec Database (Unit {0})
  unfolding require_pool query
  ping = require_pool >> query (pure tt)

  unfoldable pub start_run : String → String → String → Option String → Exec Database (Unit {0})
  unfolding require_pool query
  start_run run_id pipeline trigger resume_of = do
    require_pool
    query (λ d. insert_run (new_run d.wall_clock run_id pipeline trigger resume_of) d)

  unfoldable pub heartbeat : String → Exec Database (Unit {0})
  unfolding require_pool query
  heartbeat run_id = do
    require_pool
    query λ d. (
      ok tt,
      record d {
        pipeline_runs =
            update_where (λ r. r.id == run_id && r.status == "running")
              (λ r. record r { heartbeat_at = some d.clock }) d.pipeline_runs;
      },
    )

  unfoldable pub finish_run : String → String → Option String → Exec Database (Unit {0})
  unfolding require_pool query
  finish_run run_id status error =
      if not (contains status terminal_run_statuses)
      then raise (value_error (format ("Unsupported terminal pipeline status: " ∷ status ∷ [])))
      else do
        require_pool
        query λ d. (
          ok tt,
          record d {
            pipeline_runs =
                update_where (has_id run_id) (finished_run d.clock status error) d.pipeline_runs;
          },
        )

  -- the number of rows that the command tag reports
  unfoldable pub recover_stale_runs : ℕ → Exec Database ℕ
  unfolding require_pool query
  recover_stale_runs stale_after_seconds = do
    require_pool
    query λ d. (
      ok (length (select (is_stale d.clock stale_after_seconds) d.pipeline_runs)),
      record d {
        pipeline_runs =
            update_where (is_stale d.clock stale_after_seconds) (abandoned_run d.clock)
              d.pipeline_runs;
      },
    )

  unfoldable pub get_run : String → Exec Database (Option PipelineRun)
  unfolding require_pool query
  get_run run_id = do require_pool; query (λ d. (ok (first (has_id run_id) d.pipeline_runs), d))

  unfoldable pub start_step : String → String → String → Exec Database (Unit {0})
  unfolding require_pool query
  start_step run_id step_key metadata = do
    require_pool
    query (upsert_step run_id step_key metadata)

  unfoldable pub finish_step : String → String → String → Option String → Exec Database (Unit {0})
  unfolding require_pool query
  finish_step run_id step_key status error =
      if not (contains status terminal_step_statuses)
      then raise (value_error (format ("Unsupported terminal step status: " ∷ status ∷ [])))
      else do
        require_pool
        query λ d. (
          ok tt,
          record d {
            pipeline_steps =
                update_where (has_step run_id step_key) (finished_step d.clock status error)
                  d.pipeline_steps;
          },
        )

  unfoldable pub completed_steps : String → Exec Database (List String)
  unfolding require_pool query
  completed_steps run_id = do require_pool; query (λ d. (ok (step_keys run_id d.pipeline_steps), d))

  unfoldable pub put_watermark :
      String → String → String → String → Option String → Option String → Exec Database (Unit {0})
  unfolding require_pool query
  put_watermark pipeline stream partition_key cursor source run_id = do
    require_pool
    query λ d.
        upsert_mark
          (record {
            pipeline = pipeline;
            stream = stream;
            partition_key = partition_key;
            cursor = cursor;
            source = source;
            run_id = run_id;
            updated_at = d.clock;
          })
          d

  unfoldable pub get_watermark : String → String → String → Exec Database (Option Watermark)
  unfolding require_pool query
  get_watermark pipeline stream partition_key = do
    require_pool
    query (λ d. (ok (first (has_mark pipeline stream partition_key) d.watermarks), d))

  unfoldable pub record_raw_object : RawObject → Exec Database (Unit {0})
  unfolding require_pool query
  record_raw_object o = do require_pool; query (insert_object o)
