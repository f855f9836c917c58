-- ===== src/Control/Store/Integrity.antt =====
-- What holds of the tables after any calls of the methods of PipelineStore that write.
use stock_tracker_data_colle.Base.{
  ℕ, String, refl, ◌&&◌, Option, some, List, [], ◌∷◌, ◌++◌, arith, ◌==◌, contains, exists,
  update_where, All, Bool-cases, inl, inr, length, select,
}
use stock_tracker_data_colle.Base.Rows.{
  Unique, Unique-append, Unique-update_where, All-append_one, All-imp, All-update_where,
}
use stock_tracker_data_colle.Errors.{Exn}
use stock_tracker_data_colle.Exec.{ok, Exec, ◌>>◌}
use stock_tracker_data_colle.Control.Schema.{Watermark, RawObject, Database}
use stock_tracker_data_colle.Control.Store.{
  has_id, has_step, has_mark, has_object, refers, new_run, finished_run, is_stale, abandoned_run,
  first_attempt, next_attempt, finished_step, terminal_run_statuses, terminal_step_statuses,
  start_run, heartbeat, finish_run, recover_stale_runs, start_step, finish_step, put_watermark,
  record_raw_object, query, require_pool, insert_run, upsert_step, upsert_mark, insert_object,
}
use stock_tracker_data_colle.Control.Store.Constraints.{
  same_run, same_step, same_mark, same_object, IsRun, IsStep, IsMark, IsObject, HasIntegrity,
  Request, starts_run, beats, finishes_run, recovers, starts_step, finishes_step, puts_watermark,
  records_object, waits, served, served_all, asked, rebased, terminal-run, terminal-step,
  refers-append, same_run-sym, same_step-sym, same_mark-sym, same_object-sym, runs_updated,
  steps_updated,
}

insert_run-HasIntegrity :
    (run_id pipeline trigger : String) (resume_of : Option String) (d : Database)
    → HasIntegrity d
    → HasIntegrity (insert_run (new_run d.wall_clock run_id pipeline trigger resume_of) d).1
insert_run-HasIntegrity run_id pipeline trigger resume_of d t =
    let r = new_run d.wall_clock run_id pipeline trigger resume_of in
    elim (Bool-cases (exists (has_id run_id) d.pipeline_runs)) [
      | inl known ↦ rw known t
      | inr fresh ↦ rw fresh (elim (Bool-cases (refers resume_of (d.pipeline_runs ++ r ∷ []))) [
        | inr dangling ↦ rw dangling t
        | inl present ↦ rw present (
            rebased d.pipeline_runs (d.pipeline_runs ++ r ∷ []) d.pipeline_steps d.watermarks
              d.raw_objects (λ k. refers-append k d.pipeline_runs r)
              (Unique-append same_run same_run-sym r d.pipeline_runs fresh t.run_keys)
              (All-append_one (IsRun (d.pipeline_runs ++ r ∷ [])) d.pipeline_runs r
                (All-imp (IsRun d.pipeline_runs) (IsRun (d.pipeline_runs ++ r ∷ []))
                  (λ s h. (refers-append s.resume_of d.pipeline_runs r h.0, h.1, h.2))
                  d.pipeline_runs t.each_run)
                (present, refl, refl))
              t)
      ])
    ]

upsert_step-HasIntegrity :
    (run_id step_key metadata : String) (d : Database)
    → HasIntegrity d
    → HasIntegrity (upsert_step run_id step_key metadata d).1
upsert_step-HasIntegrity run_id step_key metadata d t =
    let s = first_attempt d.clock run_id step_key metadata in
    elim (Bool-cases (exists (has_id run_id) d.pipeline_runs)) [
      | inr dangling ↦ rw dangling t
      | inl present ↦
          rw present (elim (Bool-cases (exists (has_step run_id step_key) d.pipeline_steps)) [
            | inl old ↦ rw old (
                steps_updated (has_step run_id step_key) (next_attempt d.clock metadata) (λ s. refl)
                  (λ s. refl) (λ runs s h. (h.0, refl, refl, omega (arith, h.3))) d t)
            | inr new ↦ rw new (record {
              run_keys = t.run_keys;
              step_keys = Unique-append same_step same_step-sym s d.pipeline_steps new t.step_keys;
              mark_keys = t.mark_keys;
              object_keys = t.object_keys;
              each_run = t.each_run;
              each_step =
                  All-append_one (IsStep d.pipeline_runs) d.pipeline_steps s t.each_step
                    (present, refl, refl, omega arith);
              each_mark = t.each_mark;
              each_object = t.each_object;
            })
          ])
    ]

marks_written :
    (marks : List Watermark) (d : Database)
    → Unique same_mark marks
    → All (IsMark d.pipeline_runs) marks
    → HasIntegrity d
    → HasIntegrity (record d { watermarks = marks })
marks_written marks d keys each t = record {
  run_keys = t.run_keys;
  step_keys = t.step_keys;
  mark_keys = keys;
  object_keys = t.object_keys;
  each_run = t.each_run;
  each_step = t.each_step;
  each_mark = each;
  each_object = t.each_object;
}

upsert_mark-HasIntegrity :
    (w : Watermark) (d : Database) → HasIntegrity d → HasIntegrity (upsert_mark w d).1
upsert_mark-HasIntegrity w d t =
    let sel = has_mark w.pipeline w.stream w.partition_key in
    let change : Watermark → Watermark = λ old. record old {
      cursor = w.cursor;
      source = w.source;
      run_id = w.run_id;
      updated_at = w.updated_at;
    } in
    elim (Bool-cases (refers w.run_id d.pipeline_runs)) [
      | inr dangling ↦ rw dangling t
      | inl present ↦ rw present (elim (Bool-cases (exists sel d.watermarks)) [
        | inl old ↦ rw old (
            marks_written _ d
              (Unique-update_where same_mark sel change (λ r s. refl) (λ r s. refl) d.watermarks
                t.mark_keys)
              (All-update_where (IsMark d.pipeline_runs) sel change (λ r h. present) d.watermarks
                t.each_mark)
              t)
        | inr new ↦ rw new (
            marks_written _ d (Unique-append same_mark same_mark-sym w d.watermarks new t.mark_keys)
              (All-append_one (IsMark d.pipeline_runs) d.watermarks w t.each_mark present) t)
      ])
    ]

insert_object-HasIntegrity :
    (o : RawObject) (d : Database) → HasIntegrity d → HasIntegrity (insert_object o d).1
insert_object-HasIntegrity o d t =
    elim (Bool-cases (exists (has_object o.object_key) d.raw_objects)) [
      | inl old ↦ rw old t
      | inr new ↦ rw new (elim (Bool-cases (exists (has_id o.run_id) d.pipeline_runs)) [
        | inr dangling ↦ rw dangling t
        | inl present ↦ rw present (record {
          run_keys = t.run_keys;
          step_keys = t.step_keys;
          mark_keys = t.mark_keys;
          object_keys = Unique-append same_object same_object-sym o d.raw_objects new t.object_keys;
          each_run = t.each_run;
          each_step = t.each_step;
          each_mark = t.each_mark;
          each_object =
              All-append_one (IsObject d.pipeline_runs) d.raw_objects o t.each_object present;
        })
      ])
    ]

module _ (fault : ℕ → Option Exn) where
  -- a call that reaches the database with one statement
  sent :
      {A : Type 0} (q : Exec Database A)
      → ((d : Database) → HasIntegrity d → HasIntegrity (q d).1)
      → (d : Database) → HasIntegrity d
      → HasIntegrity ((require_pool >> query fault q) d).1
  sent q keeps d t = asked fault HasIntegrity (λ d t. t) q keeps d t

  finish_run-HasIntegrity :
      (run_id status : String) (error : Option String) (d : Database)
      → HasIntegrity d
      → HasIntegrity (finish_run fault run_id status error d).1
  unfolding finish_run
  finish_run-HasIntegrity run_id status error d t =
      elim (Bool-cases (contains status terminal_run_statuses)) [
        | inr other ↦ rw other t
        | inl known ↦ rw known (
            sent
              (λ d. (
                ok tt,
                record d {
                  pipeline_runs =
                      update_where (has_id run_id) (finished_run d.clock status error)
                        d.pipeline_runs;
                },
              ))
              (λ d.
                runs_updated (has_id run_id) (finished_run d.clock status error) (λ r. refl)
                  (λ runs r h.
                    let (allowed, ended) = terminal-run status known in
                    (h.0, allowed, rw ended refl))
                  d)
              d t)
      ]

  finish_step-HasIntegrity :
      (run_id step_key status : String) (error : Option String) (d : Database)
      → HasIntegrity d
      → HasIntegrity (finish_step fault run_id step_key status error d).1
  unfolding finish_step
  finish_step-HasIntegrity run_id step_key status error d t =
      elim (Bool-cases (contains status terminal_step_statuses)) [
        | inr other ↦ rw other t
        | inl known ↦ rw known (
            sent
              (λ d. (
                ok tt,
                record d {
                  pipeline_steps =
                      update_where (has_step run_id step_key) (finished_step d.clock status error)
                        d.pipeline_steps;
                },
              ))
              (λ d.
                steps_updated (has_step run_id step_key) (finished_step d.clock status error)
                  (λ s. refl) (λ s. refl)
                  (λ runs s h.
                    let (allowed, ended) = terminal-step status known in
                    (h.0, allowed, rw ended refl, h.3))
                  d)
              d t)
      ]

  served-HasIntegrity :
      (request : Request) (d : Database) → HasIntegrity d → HasIntegrity (served fault request d)
  unfolding start_run heartbeat recover_stale_runs start_step put_watermark record_raw_object
  served-HasIntegrity (starts_run run_id pipeline trigger resume_of) d t =
      sent (λ d. insert_run (new_run d.wall_clock run_id pipeline trigger resume_of) d)
        (insert_run-HasIntegrity run_id pipeline trigger resume_of) d t
  served-HasIntegrity (beats run_id) d t =
      sent
        (λ d. (
          ok tt,
          record d {
            pipeline_runs =
                update_where (λ r. r.id == run_id && r.status == "running")
                  (λ r. record r { heartbeat_at = some d.clock }) d.pipeline_runs;
          },
        ))
        (λ d.
          runs_updated (λ r. r.id == run_id && r.status == "running")
            (λ r. record r { heartbeat_at = some d.clock }) (λ r. refl) (λ runs r h. h) d)
        d t
  served-HasIntegrity (finishes_run run_id status error) d t =
      finish_run-HasIntegrity run_id status error d t
  served-HasIntegrity (recovers stale_after) d t =
      sent
        (λ d. (
          ok (length (select (is_stale d.clock stale_after) d.pipeline_runs)),
          record d {
            pipeline_runs =
                update_where (is_stale d.clock stale_after) (abandoned_run d.clock) d.pipeline_runs;
          },
        ))
        (λ d.
          runs_updated (is_stale d.clock stale_after) (abandoned_run d.clock) (λ r. refl)
            (λ runs r h. (h.0, refl, refl)) d)
        d t
  served-HasIntegrity (starts_step run_id step_key metadata) d t =
      sent (upsert_step run_id step_key metadata)
        (upsert_step-HasIntegrity run_id step_key metadata) d t
  served-HasIntegrity (finishes_step run_id step_key status error) d t =
      finish_step-HasIntegrity run_id step_key status error d t
  served-HasIntegrity (puts_watermark pipeline stream partition_key cursor source run_id) d t =
      let w : ℕ → Watermark = λ now. record {
        pipeline = pipeline;
        stream = stream;
        partition_key = partition_key;
        cursor = cursor;
        source = source;
        run_id = run_id;
        updated_at = now;
      } in
      sent (λ d. upsert_mark (w d.clock) d) (λ d. upsert_mark-HasIntegrity (w d.clock) d) d t
  served-HasIntegrity (records_object o) d t =
      sent (insert_object o) (insert_object-HasIntegrity o) d t
  served-HasIntegrity (waits n u) d t = t

  -- Whatever calls of the methods that write are made, in any order, whichever queries fail, and
  -- whether they return or raise, the tables keep their integrity: keys are unique; a run that is
  -- resumed and the run of a step, of a watermark and of an archived object are present; statuses
  -- are among those that the migration allows, and attempts are positive. A run or a step has its
  -- time of finishing exactly if it is not running.
  pub served_all-HasIntegrity :
      (requests : List Request) (d : Database)
      → HasIntegrity d
      → HasIntegrity (served_all fault requests d)
  served_all-HasIntegrity [] d t = t
  served_all-HasIntegrity (request ∷ requests) d t =
      served_all-HasIntegrity requests (served fault request d) (served-HasIntegrity request d t)
