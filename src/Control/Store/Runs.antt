-- ===== src/Control/Store/Runs.antt =====
-- The life of a row of pipeline_runs: inserted as running, beaten, finished, abandoned.
use mathlib.Core.Option
use stock_tracker_data_colle.Base.{
  ℕ, ◌+◌, String, ◌≡◌, refl, Bool, true, Option, none, some, List, [], ◌∷◌, arith, ◌==◌, eq_iff,
  ◌&&◌, if◌then◌else◌, contains, first, update_where, first-update_where, select,
  select-update_where, length,
}
use stock_tracker_data_colle.Errors.{Exn}
use stock_tracker_data_colle.Exec.{ok, ◌>>◌}
use stock_tracker_data_colle.Control.Schema.{PipelineRun, Database}
use stock_tracker_data_colle.Control.Store.{
  has_id, finished_run, is_stale, abandoned_run, terminal_run_statuses, heartbeat, finish_run,
  recover_stale_runs, get_run,
}

-- The row that `get_run` finds after an update, if the update keeps the identifiers.
pub found :
    (j : String) (test : PipelineRun → Bool) (change : PipelineRun → PipelineRun)
    → ((r : PipelineRun) → has_id j (change r) ≡ has_id j r)
    → (rs : List PipelineRun)
    → first (has_id j) (update_where test change rs)
      ≡ Option.map (λ r. if test r then change r else r) (first (has_id j) rs)
found j test change keeps rs = ground (arith, first-update_where (has_id j) test change keeps rs)

-- On the run that is found, a test of its identifier is a test of the one that was asked for.
pub found_id :
    (run_id j : String) (change : Bool → PipelineRun → PipelineRun) (rs : List PipelineRun)
    → Option.map (λ r. change (r.id == run_id) r) (first (has_id j) rs)
      ≡ Option.map (λ r. change (run_id == j) r) (first (has_id j) rs)
found_id run_id j change [] = refl
found_id run_id j change (r ∷ rs) =
    ground (arith, found_id run_id j change rs, eq_iff r.id run_id, eq_iff r.id j, eq_iff run_id j)

-- The environment fails no query, and the pool is open.
pub record IsUp (fault : ℕ → Option Exn) (d : Database) : Type 0 where
  pub open_pool : d.connected ≡ true
  pub answers : (n : ℕ) → fault n ≡ none

module _ (fault : ℕ → Option Exn) (d : Database) (up : IsUp fault d) where
  -- While the database answers, after finish_run with a terminal status the run has that status,
  -- error and finish time, and every other run is as it was.
  get_run-finish_run :
      (run_id status : String) (error : Option String) (j : String)
      → contains status terminal_run_statuses ≡ true
      → ((finish_run fault run_id status error >> get_run fault j) d).0
        ≡ ok (
            Option.map
              (λ r. if run_id == j then finished_run d.clock status error r else r)
              (first (has_id j) d.pipeline_runs))
  unfolding finish_run get_run
  get_run-finish_run run_id status error j known = rw known (
      ground (
        arith,
        up.open_pool,
        up.answers d.queries,
        up.answers (d.queries + 1),
        found j (has_id run_id) (finished_run d.clock status error) (λ r. refl) d.pipeline_runs,
        found_id run_id j (λ b r. if b then finished_run d.clock status error r else r)
            d.pipeline_runs,
      ))

  -- While the database answers, a heartbeat moves the heartbeat time of its run if that is
  -- running, and nothing else of any run.
  get_run-heartbeat :
      (run_id j : String)
      → ((heartbeat fault run_id >> get_run fault j) d).0
        ≡ ok (
            Option.map
              (λ r.
                if run_id == j && r.status == "running"
                then record r { heartbeat_at = some d.clock }
                else r)
              (first (has_id j) d.pipeline_runs))
  unfolding heartbeat get_run
  get_run-heartbeat run_id j = ground (
    arith,
    up.open_pool,
    up.answers d.queries,
    up.answers (d.queries + 1),
    found j (λ r. r.id == run_id && r.status == "running")
        (λ r. record r { heartbeat_at = some d.clock }) (λ r. refl) d.pipeline_runs,
    found_id run_id j
        (λ b r. if b && r.status == "running" then record r { heartbeat_at = some d.clock } else r)
        d.pipeline_runs,
  )

  -- While the database answers, recovery abandons exactly the runs whose heartbeat is older than
  -- the threshold, leaves no such run behind, and returns their number.
  recover_stale_runs_effect :
      (stale_after : ℕ) (j : String)
      → let (outcome, after) = recover_stale_runs fault stale_after d in
        (outcome ≡ ok (length (select (is_stale d.clock stale_after) d.pipeline_runs)))
        × (first (has_id j) after.pipeline_runs
            ≡ Option.map
                (λ r. if is_stale d.clock stale_after r then abandoned_run d.clock r else r)
                (first (has_id j) d.pipeline_runs))
        × (select (is_stale d.clock stale_after) after.pipeline_runs ≡ [])
  unfolding recover_stale_runs
  recover_stale_runs_effect stale_after j = (
    ground (arith, up.open_pool, up.answers d.queries),
    ground (
      arith,
      up.open_pool,
      up.answers d.queries,
      found j (is_stale d.clock stale_after) (abandoned_run d.clock) (λ r. refl) d.pipeline_runs,
    ),
    ground (
      arith,
      up.open_pool,
      up.answers d.queries,
      select-update_where (is_stale d.clock stale_after) (abandoned_run d.clock) (λ r. refl)
          d.pipeline_runs,
    ),
  )
