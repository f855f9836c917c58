-- ===== src/Engine/Steps.antt =====
-- What `PipelineEngine.step` records, and what a resumed run may skip.
use stock_tracker_data_colle.Base.{
  ℕ, String, ◌≡◌, refl, Bool, true, false, Option, [], ◌∷◌, arith, contains, exists, ◌&&◌, eq_refl,
  exists-update_where, first-append, ◌==◌, none, some, if◌then◌else◌,
}
use stock_tracker_data_colle.Errors.{Exn, message}
use stock_tracker_data_colle.Exec.{Outcome, ok, raised, Exec, is_ok}
use stock_tracker_data_colle.Control.Context.{PipelineRunContext}
use stock_tracker_data_colle.Control.Schema.{Database}
use stock_tracker_data_colle.Control.Store.{
  has_id, has_step, start_step, finish_step, step_keys, terminal_step_statuses, finished_step,
  next_attempt, first_attempt,
}
use stock_tracker_data_colle.Control.Store.Runs.{IsUp}
use stock_tracker_data_colle.Control.Store.Steps.{step_keys-update_where}
use stock_tracker_data_colle.Engine.{World, step, open_step, close_step, should_run}

-- The engine is durable and its database answers; the run and its step have rows.
pub record IsOpen {S : Type 0} (fault : ℕ → Option Exn) (run_id step_key : String) (w : World S)
    : Type 0 where
  pub durable : w.durable ≡ true
  pub up : IsUp fault w.database
  pub has_run : exists (has_id run_id) w.database.pipeline_runs ≡ true
  pub has_row : exists (has_step run_id step_key) w.database.pipeline_steps ≡ true

finish_step_known :
    (fault : ℕ → Option Exn) (run_id step_key status : String) (error : Option String)
    (d : Database)
    → IsUp fault d
    → contains status terminal_step_statuses ≡ true
    → let (result, after) = finish_step fault run_id step_key status error d in
      (result ≡ ok tt)
      × (after.connected ≡ true)
      × (after.pipeline_runs ≡ d.pipeline_runs)
      × (exists (has_step run_id step_key) after.pipeline_steps
          ≡ exists (has_step run_id step_key) d.pipeline_steps)
      × (contains step_key (step_keys run_id after.pipeline_steps)
          ≡ (exists (has_step run_id step_key) d.pipeline_steps && status == "completed"))
unfolding finish_step
finish_step_known fault run_id step_key status error d up known = rw known (
    ground (
      arith,
      up.open_pool,
      up.answers d.queries,
      exists-update_where (has_step run_id step_key) (has_step run_id step_key)
          (finished_step d.clock status error) (λ s. refl) d.pipeline_steps,
      step_keys-update_where run_id step_key run_id step_key status
          (finished_step d.clock status error) (λ s. refl) (λ s. refl) (λ s. refl) d.pipeline_steps,
      eq_refl run_id,
      eq_refl step_key,
    ))

start_step_known :
    (fault : ℕ → Option Exn) (run_id step_key metadata : String) (d : Database)
    → IsUp fault d
    → exists (has_id run_id) d.pipeline_runs ≡ true
    → let (result, after) = start_step fault run_id step_key metadata d in
      (result ≡ ok tt)
      × (after.connected ≡ true)
      × (after.pipeline_runs ≡ d.pipeline_runs)
      × (exists (has_step run_id step_key) after.pipeline_steps ≡ true)
unfolding start_step
start_step_known fault run_id step_key metadata d up known = ground (
  arith,
  up.open_pool,
  up.answers d.queries,
  exists-update_where (has_step run_id step_key) (has_step run_id step_key)
      (next_attempt d.clock metadata) (λ s. refl) d.pipeline_steps,
  first-append (has_step run_id step_key) d.pipeline_steps
      (first_attempt d.clock run_id step_key metadata ∷ []),
  eq_refl run_id,
  eq_refl step_key,
)

-- Whether the step counts as completed in the run of the context.
abbrev pub is_completed : {S : Type 0} → PipelineRunContext → String → World S → Bool
is_completed c step_key w = contains step_key (step_keys c.run_id w.database.pipeline_steps)

module _ {S : Type 0} (fault : ℕ → Option Exn) (c : PipelineRunContext) (step_key : String) where
  open_step_opens :
      (metadata : String) (w : World S)
      → w.durable ≡ true
      → IsUp fault w.database
      → exists (has_id c.run_id) w.database.pipeline_runs ≡ true
      → let (result, v) = open_step fault (some c) step_key metadata w in
        (result ≡ ok tt)
        × IsOpen fault c.run_id step_key v
        × (should_run (some c) step_key ≡ false → is_completed c step_key v ≡ false)
  unfolding open_step
  open_step_opens metadata w durable up has_run =
      let (started, connected, runs, row) =
        start_step_known fault c.run_id step_key metadata w.database up has_run in
      let up' : IsUp fault (start_step fault c.run_id step_key metadata w.database).1 = record {
        open_pool = connected;
        answers = up.answers;
      } in
      let (finished, connected', runs', row', keys) =
        finish_step_known fault c.run_id step_key "skipped" none _ up' refl in
      (
        ground (arith, durable),
        record {
          durable = ground (arith, durable);
          up = record { open_pool = ground (arith, durable); answers = up.answers };
          has_run = ground (arith, durable);
          has_row = ground (arith, durable);
        },
        ground (arith, durable),
      )

  close_step_records :
      (outcome : Outcome (Unit {0})) (u : World S)
      → IsOpen fault c.run_id step_key u
      → let (result, after) = close_step fault (some c) step_key outcome u in
        (result ≡ outcome)
        × (is_completed c step_key after
            ≡ (if should_run (some c) step_key then is_ok outcome else is_completed c step_key u))
  unfolding close_step
  close_step_records (ok a) u h =
      let known = finish_step_known fault c.run_id step_key "completed" none u.database h.up refl in
      ground (arith, h.durable, h.has_row)
  close_step_records (raised e) u h =
      let known =
        finish_step_known fault c.run_id step_key "failed" (some (message e)) u.database h.up
          refl in
      ground (arith, h.durable, h.has_row)

  -- In a run with a row, on a durable control plane that answers, take a block that does nothing
  -- when it is told to skip, and keeps the rows of the run and of the step. The step counts as
  -- completed exactly if it was not skipped and its block returned, and it raises what its block
  -- raises. So a step that is skipped, since the resumed run completed it, does not count as
  -- completed in the run that skips it.
  pub step_completes :
      (metadata : String) (block : Bool → Exec (World S) (Unit {0})) (w : World S)
      → w.context ≡ some c
      → w.durable ≡ true
      → IsUp fault w.database
      → exists (has_id c.run_id) w.database.pipeline_runs ≡ true
      → ((b : Bool) (v : World S)
          → IsOpen fault c.run_id step_key v
          → IsOpen fault c.run_id step_key (block b v).1)
      → ((v : World S) → block false v ≡ (ok tt, v))
      → (v : World S) × IsOpen fault c.run_id step_key v
        × ((step fault step_key metadata block w).0 ≡ (block (should_run (some c) step_key) v).0)
        × (is_completed c step_key (step fault step_key metadata block w).1
            ≡ (should_run (some c) step_key && is_ok (block (should_run (some c) step_key) v).0))
  unfolding step
  step_completes metadata block w ctx durable up has_run keeps skips =
      let (opened, is_open, skipped) = open_step_opens metadata w durable up has_run in
      let v = (open_step fault (some c) step_key metadata w).1 in
      let (outcome, u) = block (should_run (some c) step_key) v in
      let (result, completed) = close_step_records outcome u (keeps _ v is_open) in
      (v, is_open, simp ctx (rw opened result), simp ctx (rw opened (ground (arith, skips v))))
