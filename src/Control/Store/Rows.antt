-- ===== src/Control/Store/Rows.antt =====
-- The rows that the statements of app/control/store.py select, insert and update.
use stock_tracker_data_colle.Base.{
  ℕ, ◌+◌, String, Bool, true, false, ◌&&◌, Option, none, some, List, [], ◌∷◌, ◌++◌, map, ltb, ◌==◌,
  if◌then◌else◌, select, update_where, exists,
}
use stock_tracker_data_colle.Errors.{foreign_error}
use stock_tracker_data_colle.Exec.{ok, raised, Exec}
use stock_tracker_data_colle.Control.Schema.{
  PipelineRun, PipelineStep, Watermark, RawObject, Database,
}

-- a text is one of those listed: `status in {…}`
abbrev pub terminal_run_statuses : List String
terminal_run_statuses = "completed" ∷ "failed" ∷ "cancelled" ∷ "abandoned" ∷ []

abbrev pub terminal_step_statuses : List String
terminal_step_statuses = "completed" ∷ "failed" ∷ "skipped" ∷ []

abbrev pub has_id : String → PipelineRun → Bool
has_id run_id r = r.id == run_id

abbrev pub has_step : String → String → PipelineStep → Bool
has_step run_id step_key s = s.run_id == run_id && s.step_key == step_key

-- a reference to pipeline_runs(id)
abbrev pub refers : Option String → List PipelineRun → Bool
refers none runs = true
refers (some run_id) runs = exists (has_id run_id) runs

-- INSERT INTO collector.pipeline_runs: the reference may be to the new row itself
abbrev pub insert_run : PipelineRun → Exec Database (Unit {0})
insert_run r d =
    if exists (has_id r.id) d.pipeline_runs
    then (raised (foreign_error "duplicate key value violates unique constraint"), d)
    else if refers r.resume_of (d.pipeline_runs ++ r ∷ [])
    then (ok tt, record d { pipeline_runs = d.pipeline_runs ++ r ∷ [] })
    else (raised (foreign_error "insert violates foreign key constraint"), d)

abbrev pub new_run : ℕ → String → String → String → Option String → PipelineRun
new_run now run_id pipeline trigger resume_of = record {
  id = run_id;
  pipeline = pipeline;
  status = "running";
  trigger = trigger;
  submitted_at = now;
  started_at = some now;
  heartbeat_at = some now;
  finished_at = none;
  error = none;
  resume_of = resume_of;
}

abbrev pub finished_run : ℕ → String → Option String → PipelineRun → PipelineRun
finished_run now status error r = record r {
  status = status;
  error = error;
  heartbeat_at = some now;
  finished_at = some now;
}

-- WHERE status = 'running' AND heartbeat_at < now() - stale_after; a comparison with NULL fails
abbrev pub beat_before : ℕ → ℕ → Option ℕ → Bool
beat_before now stale_after none = false
beat_before now stale_after (some beat) = ltb (beat + stale_after) now

abbrev pub is_stale : ℕ → ℕ → PipelineRun → Bool
is_stale now stale_after r = r.status == "running" && beat_before now stale_after r.heartbeat_at

abbrev pub abandoned_run : ℕ → PipelineRun → PipelineRun
abandoned_run now r = record r {
  status = "abandoned";
  error = some "collector stopped heartbeating before completion";
  finished_at = some now;
}

abbrev pub first_attempt : ℕ → String → String → String → PipelineStep
first_attempt now run_id step_key metadata = record {
  run_id = run_id;
  step_key = step_key;
  status = "running";
  attempt = 1;
  started_at = now;
  finished_at = none;
  error = none;
  metadata = metadata ∷ [];
}

abbrev pub next_attempt : ℕ → String → PipelineStep → PipelineStep
next_attempt now metadata s = record s {
  status = "running";
  attempt = s.attempt + 1;
  started_at = now;
  finished_at = none;
  error = none;
  metadata = s.metadata ++ metadata ∷ [];
}

abbrev pub finished_step : ℕ → String → Option String → PipelineStep → PipelineStep
finished_step now status error s = record s {
  status = status;
  error = error;
  finished_at = some now;
}

-- SELECT step_key … WHERE run_id = $1 AND status = 'completed'
abbrev pub step_keys : String → List PipelineStep → List String
step_keys run_id steps =
    map (λ s. s.step_key) (select (λ s. s.run_id == run_id && s.status == "completed") steps)

-- INSERT … ON CONFLICT (run_id, step_key) DO UPDATE
abbrev pub upsert_step : String → String → String → Exec Database (Unit {0})
upsert_step run_id step_key metadata d =
    if exists (has_id run_id) d.pipeline_runs
    then (
      ok tt,
      record d {
        pipeline_steps =
            if exists (has_step run_id step_key) d.pipeline_steps
            then update_where (has_step run_id step_key) (next_attempt d.clock metadata)
                d.pipeline_steps
            else d.pipeline_steps ++ first_attempt d.clock run_id step_key metadata ∷ [];
      },
    )
    else (raised (foreign_error "insert violates foreign key constraint"), d)

abbrev pub has_mark : String → String → String → Watermark → Bool
has_mark pipeline stream partition_key w =
    w.pipeline == pipeline && (w.stream == stream && w.partition_key == partition_key)

-- INSERT … ON CONFLICT (pipeline, stream, partition_key) DO UPDATE
abbrev pub upsert_mark : Watermark → Exec Database (Unit {0})
upsert_mark w d =
    if refers w.run_id d.pipeline_runs
    then (
      ok tt,
      record d {
        watermarks =
            if exists (has_mark w.pipeline w.stream w.partition_key) d.watermarks
            then update_where (has_mark w.pipeline w.stream w.partition_key)
                (λ old. record old {
                  cursor = w.cursor;
                  source = w.source;
                  run_id = w.run_id;
                  updated_at = w.updated_at;
                })
                d.watermarks
            else d.watermarks ++ w ∷ [];
      },
    )
    else (raised (foreign_error "insert violates foreign key constraint"), d)

abbrev pub has_object : String → RawObject → Bool
has_object object_key o = o.object_key == object_key

-- INSERT … ON CONFLICT (object_key) DO NOTHING
abbrev pub insert_object : RawObject → Exec Database (Unit {0})
insert_object o d =
    if exists (has_object o.object_key) d.raw_objects
    then (ok tt, d)
    else if exists (has_id o.run_id) d.pipeline_runs
    then (ok tt, record d { raw_objects = d.raw_objects ++ o ∷ [] })
    else (raised (foreign_error "insert violates foreign key constraint"), d)
