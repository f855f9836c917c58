-- ===== src/Control/Store/Constraints.antt =====
-- The constraints of the migration as predicates on the tables, the calls that write, and what the
-- statements keep of the constraints.
use stock_tracker_data_colle.Base.{
  ℕ, ◌+◌, ◌<◌, String, ◌≡◌, refl, sym, subst, ◌⊎◌, Bool, true, false, not, Option, none, some, List,
  [], ◌∷◌, ◌++◌, arith, ◌==◌, eq_iff, contains, update_where, is_some, All, Bool-cases,
  Option-cases, inl, inr, exists-update_where, first-append,
}
use stock_tracker_data_colle.Base.Rows.{Unique, Unique-update_where, All-imp, All-update_where}
use stock_tracker_data_colle.Errors.{Exn, runtime_error}
use stock_tracker_data_colle.Exec.{Outcome, ok, raised, Exec, continue, ◌>>◌}
use stock_tracker_data_colle.Control.Schema.{
  PipelineRun, PipelineStep, Watermark, RawObject, Database,
}
use stock_tracker_data_colle.Control.Store.{
  has_id, has_step, has_mark, has_object, refers, terminal_run_statuses, terminal_step_statuses,
  start_run, heartbeat, finish_run, recover_stale_runs, start_step, finish_step, put_watermark,
  record_raw_object, query, require_pool,
}

-- The keys of the tables.
abbrev pub same_run : PipelineRun → PipelineRun → Bool
same_run r s = has_id r.id s

abbrev pub same_step : PipelineStep → PipelineStep → Bool
same_step r s = has_step r.run_id r.step_key s

abbrev pub same_mark : Watermark → Watermark → Bool
same_mark r s = has_mark r.pipeline r.stream r.partition_key s

abbrev pub same_object : RawObject → RawObject → Bool
same_object r s = has_object r.object_key s

-- CONSTRAINT ck_pipeline_run_status and ck_pipeline_step_status
abbrev pub run_statuses : List String
run_statuses = "pending" ∷ "running" ∷ "completed" ∷ "failed" ∷ "cancelled" ∷ "abandoned" ∷ []

abbrev pub step_statuses : List String
step_statuses = "running" ∷ "completed" ∷ "failed" ∷ "skipped" ∷ []

abbrev pub IsRun : List PipelineRun → PipelineRun → Type 0
IsRun runs r =
    (refers r.resume_of runs ≡ true)
    × (contains r.status run_statuses ≡ true)
    × (is_some r.finished_at ≡ not (r.status == "running"))

abbrev pub IsStep : List PipelineRun → PipelineStep → Type 0
IsStep runs s =
    (refers (some s.run_id) runs ≡ true)
    × (contains s.status step_statuses ≡ true)
    × (is_some s.finished_at ≡ not (s.status == "running"))
    × (0 < s.attempt)

abbrev pub IsMark : List PipelineRun → Watermark → Type 0
IsMark runs w = refers w.run_id runs ≡ true

abbrev pub IsObject : List PipelineRun → RawObject → Type 0
IsObject runs o = refers (some o.run_id) runs ≡ true

pub record AreTables (runs : List PipelineRun) (steps : List PipelineStep) (marks : List Watermark)
    (objects : List RawObject) : Type 0 where
  -- the primary keys and the unique constraints
  pub run_keys : Unique same_run runs
  pub step_keys : Unique same_step steps
  pub mark_keys : Unique same_mark marks
  pub object_keys : Unique same_object objects
  -- the references and the checks of the rows
  pub each_run : All (IsRun runs) runs
  pub each_step : All (IsStep runs) steps
  pub each_mark : All (IsMark runs) marks
  pub each_object : All (IsObject runs) objects

abbrev pub HasIntegrity : Database → Type 0
HasIntegrity d = AreTables d.pipeline_runs d.pipeline_steps d.watermarks d.raw_objects

-- A call of a method that writes, or the passing of time.
pub data Request : Type 0 where
  starts_run : String → String → String → Option String → Request
  beats : String → Request
  finishes_run : String → String → Option String → Request
  recovers : ℕ → Request
  starts_step : String → String → String → Request
  finishes_step : String → String → String → Option String → Request
  puts_watermark : String → String → String → String → Option String → Option String → Request
  records_object : RawObject → Request
  waits : ℕ → ℕ → Request

-- The database after a call, whether it returned or raised.
abbrev pub served : (ℕ → Option Exn) → Request → Database → Database
served fault (starts_run run_id pipeline trigger resume_of) d =
    (start_run fault run_id pipeline trigger resume_of d).1
served fault (beats run_id) d = (heartbeat fault run_id d).1
served fault (finishes_run run_id status error) d = (finish_run fault run_id status error d).1
served fault (recovers stale_after) d = (recover_stale_runs fault stale_after d).1
served fault (starts_step run_id step_key metadata) d =
    (start_step fault run_id step_key metadata d).1
served fault (finishes_step run_id step_key status error) d =
    (finish_step fault run_id step_key status error d).1
served fault (puts_watermark pipeline stream partition_key cursor source run_id) d =
    (put_watermark fault pipeline stream partition_key cursor source run_id d).1
served fault (records_object o) d = (record_raw_object fault o d).1
served fault (waits t u) d = record d { clock = d.clock + t; wall_clock = d.wall_clock + u }

abbrev pub served_all : (ℕ → Option Exn) → List Request → Database → Database
served_all fault [] d = d
served_all fault (request ∷ requests) d = served_all fault requests (served fault request d)

require_pool-cases :
    (d : Database) → (require_pool d ≡ (ok tt, d)) ⊎ ((e : Exn) × (require_pool d ≡ (raised e, d)))
unfolding require_pool
require_pool-cases d = elim (Bool-cases d.connected) [
  | inl opened ↦ inl (ground (arith, opened))
  | inr closed ↦ inr (runtime_error "PipelineStore is not connected", ground (arith, closed))
]

-- A query that keeps a property of the tables keeps it, also where the pool is closed or it fails.
module _ (fault : ℕ → Option Exn) (P : Database → Type 0)
    (blind : (d : Database) → P d → P (record d { queries = d.queries + 1 })) {A : Type 0}
    (q : Exec Database A) (keeps : (d : Database) → P d → P (q d).1) (d : Database) (h : P d) where
  query-keeps : P (query fault q d).1
  unfolding query
  query-keeps = elim (Option-cases (fault d.queries)) [
    | inl answers ↦ rw (answers, query) (keeps (record d { queries = d.queries + 1 }) (blind d h))
    | inr (e, fails) ↦ rw (fails, query) (blind d h)
  ]

  pub asked : P ((require_pool >> query fault q) d).1
  asked =
      let Kept : Outcome (Unit {0}) × Database → Type 0 =
        λ r. P (continue r.0 (λ _. query fault q) r.1).1 in
      elim (require_pool-cases d) [
        | inl opened ↦ subst Kept (sym opened) query-keeps
        | inr (e, closed) ↦ subst Kept (sym closed) h
      ]

-- Rows that keep their references, where every present run stays present.
pub rebased :
    (runs runs' : List PipelineRun) (steps : List PipelineStep) (marks : List Watermark)
    (objects : List RawObject)
    → ((k : Option String) → refers k runs ≡ true → refers k runs' ≡ true)
    → Unique same_run runs'
    → All (IsRun runs') runs'
    → AreTables runs steps marks objects
    → AreTables runs' steps marks objects
rebased runs runs' steps marks objects stays keys each t = record {
  run_keys = keys;
  step_keys = t.step_keys;
  mark_keys = t.mark_keys;
  object_keys = t.object_keys;
  each_run = each;
  each_step =
      All-imp (IsStep runs) (IsStep runs') (λ s h. (stays (some s.run_id) h.0, h.1, h.2, h.3)) steps
        t.each_step;
  each_mark = All-imp (IsMark runs) (IsMark runs') (λ w h. stays w.run_id h) marks t.each_mark;
  each_object =
      All-imp (IsObject runs) (IsObject runs') (λ o h. stays (some o.run_id) h) objects
        t.each_object;
}

-- UPDATE collector.pipeline_runs, where the identifier stays
module _ (test : PipelineRun → Bool) (change : PipelineRun → PipelineRun)
    (same_id : (r : PipelineRun) → (change r).id ≡ r.id)
    (checked : (runs : List PipelineRun) (r : PipelineRun)
      → IsRun runs r
      → IsRun runs (change r)) where
  refers-update_where :
      (k : Option String) (runs : List PipelineRun)
      → refers k (update_where test change runs) ≡ refers k runs
  refers-update_where none runs = refl
  refers-update_where (some run_id) runs =
      exists-update_where (has_id run_id) test change (λ r. rw (same_id r) refl) runs

  pub runs_updated :
      (d : Database)
      → HasIntegrity d
      → HasIntegrity (record d { pipeline_runs = update_where test change d.pipeline_runs })
  runs_updated d t =
      rebased d.pipeline_runs (update_where test change d.pipeline_runs) d.pipeline_steps
        d.watermarks d.raw_objects (λ k h. rw (refers-update_where k d.pipeline_runs) h)
        (Unique-update_where same_run test change (λ r s. rw (same_id r) refl)
          (λ r s. rw (same_id s) refl) d.pipeline_runs t.run_keys)
        (All-imp (IsRun d.pipeline_runs) (IsRun (update_where test change d.pipeline_runs))
          (λ r h. (rw (refers-update_where r.resume_of d.pipeline_runs) h.0, h.1, h.2))
          (update_where test change d.pipeline_runs)
          (All-update_where (IsRun d.pipeline_runs) test change (checked d.pipeline_runs)
            d.pipeline_runs t.each_run))
        t

-- UPDATE collector.pipeline_steps, where the key stays
module _ (test : PipelineStep → Bool) (change : PipelineStep → PipelineStep)
    (same_id : (s : PipelineStep) → (change s).run_id ≡ s.run_id)
    (same_key : (s : PipelineStep) → (change s).step_key ≡ s.step_key)
    (checked : (runs : List PipelineRun) (s : PipelineStep)
      → IsStep runs s
      → IsStep runs (change s)) where
  pub steps_updated :
      (d : Database)
      → HasIntegrity d
      → HasIntegrity (record d { pipeline_steps = update_where test change d.pipeline_steps })
  steps_updated d t = record {
    run_keys = t.run_keys;
    step_keys =
        Unique-update_where same_step test change (λ r s. rw (same_id r, same_key r) refl)
          (λ r s. rw (same_id s, same_key s) refl) d.pipeline_steps t.step_keys;
    mark_keys = t.mark_keys;
    object_keys = t.object_keys;
    each_run = t.each_run;
    each_step =
        All-update_where (IsStep d.pipeline_runs) test change (checked d.pipeline_runs)
          d.pipeline_steps t.each_step;
    each_mark = t.each_mark;
    each_object = t.each_object;
  }

not-running :
    (status : String) (statuses : List String)
    → contains "running" statuses ≡ false
    → contains status statuses ≡ true
    → (status == "running") ≡ false
not-running status statuses never h = elim (Bool-cases (status == "running")) [
  | inr other ↦ other
  | inl is_running ↦ absurd (no-text ((eq_iff status "running").0 is_running) h)
]
  where
    no-text : status ≡ "running" → contains status statuses ≡ true → ⊥
    no-text e h = let f : contains "running" statuses ≡ true = rw (← e) h in cc

pub terminal-run :
    (status : String)
    → contains status terminal_run_statuses ≡ true
    → (contains status run_statuses ≡ true) × ((status == "running") ≡ false)
terminal-run status h = (ground arith, not-running status terminal_run_statuses refl h)

pub terminal-step :
    (status : String)
    → contains status terminal_step_statuses ≡ true
    → (contains status step_statuses ≡ true) × ((status == "running") ≡ false)
terminal-step status h = (ground arith, not-running status terminal_step_statuses refl h)

pub refers-append :
    (k : Option String) (runs : List PipelineRun) (r : PipelineRun)
    → refers k runs ≡ true
    → refers k (runs ++ r ∷ []) ≡ true
refers-append none runs r h = refl
refers-append (some run_id) runs r h = ground (arith, first-append (has_id run_id) runs (r ∷ []))

pub same_run-sym : (r s : PipelineRun) → same_run r s ≡ same_run s r
same_run-sym r s = ground (arith, eq_iff r.id s.id, eq_iff s.id r.id)

pub same_step-sym : (r s : PipelineStep) → same_step r s ≡ same_step s r
same_step-sym r s = ground (
  arith,
  eq_iff r.run_id s.run_id,
  eq_iff s.run_id r.run_id,
  eq_iff r.step_key s.step_key,
  eq_iff s.step_key r.step_key,
)

pub same_mark-sym : (r s : Watermark) → same_mark r s ≡ same_mark s r
same_mark-sym r s = ground (
  arith,
  eq_iff r.pipeline s.pipeline,
  eq_iff s.pipeline r.pipeline,
  eq_iff r.stream s.stream,
  eq_iff s.stream r.stream,
  eq_iff r.partition_key s.partition_key,
  eq_iff s.partition_key r.partition_key,
)

pub same_object-sym : (r s : RawObject) → same_object r s ≡ same_object s r
same_object-sym r s =
    ground (arith, eq_iff r.object_key s.object_key, eq_iff s.object_key r.object_key)
