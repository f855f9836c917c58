-- ===== src/Control/Store/Steps.antt =====
-- The completed steps of a run, after steps are started and finished.
use stock_tracker_data_colle.Base.{
  ℕ, ◌+◌, String, ◌≡◌, refl, Bool, true, false, Option, List, [], ◌∷◌, ◌++◌, arith, ◌==◌, eq_iff,
  eq_refl, ◌&&◌, ◌||◌, if◌then◌else◌, contains, exists, update_where, ◌∙◌, inl, inr, Bool-cases,
}
use stock_tracker_data_colle.Errors.{Exn}
use stock_tracker_data_colle.Exec.{Outcome, ok, raised, ◌>>◌}
use stock_tracker_data_colle.Control.Schema.{PipelineStep, Database}
use stock_tracker_data_colle.Control.Store.{
  has_id, has_step, step_keys, first_attempt, next_attempt, finished_step, terminal_step_statuses,
  start_step, finish_step, completed_steps,
}
use stock_tracker_data_colle.Control.Store.Runs.{IsUp}

abbrev pub same_step : String → String → String → String → Bool
same_step run key run' key' = run == run' && key == key'

counts : String → String → PipelineStep → Bool
counts run key s = s.run_id == run && s.status == "completed" && s.step_key == key

contains-step_keys :
    (run key : String) (s : PipelineStep) (steps : List PipelineStep)
    → contains key (step_keys run (s ∷ steps))
      ≡ (counts run key s || contains key (step_keys run steps))
unfolding counts
contains-step_keys run key s steps = ground arith

module _ (run key run' key' : String) where
  -- A row of another step than the one that is asked for does not count, and a row of that step is
  -- not another's.
  counts-ne :
      (s : PipelineStep)
      → same_step run key run' key' ≡ true
      → has_step run key s ≡ false
      → counts run' key' s ≡ false
  unfolding counts
  counts-ne s e h = ground (arith, eq_iff run run', eq_iff key key', eq_iff s.run_id run)

  counts-apart :
      (s : PipelineStep)
      → same_step run key run' key' ≡ false
      → has_step run key s ≡ true
      → counts run' key' s ≡ false
  unfolding counts
  counts-apart s e h = ground (
    arith,
    eq_iff s.run_id run,
    eq_iff s.run_id run',
    eq_iff run run',
    eq_iff s.step_key key,
    eq_iff s.step_key key',
    eq_iff key key',
  )

  counts-same :
      (s : PipelineStep)
      → same_step run key run' key' ≡ true
      → has_step run key s ≡ true
      → counts run' key' s ≡ (s.status == "completed")
  unfolding counts
  counts-same s e h = ground (
    arith,
    eq_iff s.run_id run,
    eq_iff run run',
    eq_iff s.step_key key,
    eq_iff key key',
    eq_refl run,
    eq_refl key,
  )

  module _ (status : String) (change : PipelineStep → PipelineStep)
      (same_run : (s : PipelineStep) → (change s).run_id ≡ s.run_id)
      (same_key : (s : PipelineStep) → (change s).step_key ≡ s.step_key)
      (now : (s : PipelineStep) → (change s).status ≡ status) where
    has_step-change : (s : PipelineStep) → has_step run key (change s) ≡ has_step run key s
    has_step-change s = ground (arith, same_run s, same_key s)

    -- Updating the status of one step moves only that step into or out of the completed ones.
    pub step_keys-update_where :
        (steps : List PipelineStep)
        → contains key' (step_keys run' (update_where (has_step run key) change steps)) ≡ (
            if same_step run key run' key'
            then exists (has_step run key) steps && status == "completed"
            else contains key' (step_keys run' steps))
    step_keys-update_where [] = ground arith
    step_keys-update_where (s ∷ steps) = elim (Bool-cases (has_step run key s)) [
      | inl is_row ↦ rw is_row (
          contains-step_keys run' key' (change s) (update_where (has_step run key) change steps)
          ∙ ground (
            arith,
            step_keys-update_where steps,
            now s,
            λ (e : same_step run key run' key' ≡ true).
                counts-same (change s) e (has_step-change s ∙ is_row),
            λ (e : same_step run key run' key' ≡ false).
                counts-apart (change s) e (has_step-change s ∙ is_row),
            λ (e : same_step run key run' key' ≡ false). counts-apart s e is_row,
            contains-step_keys run' key' s steps,
          ))
      | inr other ↦ rw other (
          contains-step_keys run' key' s (update_where (has_step run key) change steps)
          ∙ ground (
            arith,
            step_keys-update_where steps,
            λ (e : same_step run key run' key' ≡ true). counts-ne s e other,
            contains-step_keys run' key' s steps,
          ))
    ]

  step_keys-append :
      (steps : List PipelineStep) (s : PipelineStep)
      → contains key' (step_keys run' (steps ++ s ∷ [])) ≡ (
          contains key' (step_keys run' steps)
          || (s.run_id == run' && s.status == "completed" && s.step_key == key'))
  step_keys-append [] s = ground arith
  step_keys-append (t ∷ steps) s = ground (arith, step_keys-append steps s)

  -- A step that has no row is not completed.
  not_completed :
      (steps : List PipelineStep)
      → exists (has_step run key) steps ≡ false
      → same_step run key run' key' ≡ true
      → contains key' (step_keys run' steps) ≡ false
  not_completed [] h e = refl
  not_completed (s ∷ steps) h e = ground (
    arith,
    not_completed steps,
    eq_iff s.run_id run,
    eq_iff s.run_id run',
    eq_iff run run',
    eq_iff s.step_key key,
    eq_iff s.step_key key',
    eq_iff key key',
  )

-- Whether a key is among the steps that `completed_steps` returns.
abbrev pub returns_key : String → Outcome (List String) → Bool
returns_key key (ok keys) = contains key keys
returns_key key (raised e) = false

module _ (fault : ℕ → Option Exn) (d : Database) (up : IsUp fault d) where
  -- While the database answers, a step that is finished with a terminal status counts as completed
  -- exactly if it was started and that status is `completed`; the other steps, of this run and of
  -- others, count as before.
  pub completed_steps-finish_step :
      (run key status : String) (error : Option String) (run' key' : String)
      → contains status terminal_step_statuses ≡ true
      → returns_key key'
          ((finish_step fault run key status error >> completed_steps fault run') d).0
        ≡ (if same_step run key run' key'
            then exists (has_step run key) d.pipeline_steps && status == "completed"
            else contains key' (step_keys run' d.pipeline_steps))
  unfolding finish_step completed_steps
  completed_steps-finish_step run key status error run' key' known = rw known (
      ground (
        arith,
        up.open_pool,
        up.answers d.queries,
        up.answers (d.queries + 1),
        step_keys-update_where run key run' key' status (finished_step d.clock status error)
            (λ s. refl) (λ s. refl) (λ s. refl) d.pipeline_steps,
      ))

  -- While the database answers, a step of a present run that is started, or started again, does
  -- not count as completed; the other steps, of this run and of others, count as before.
  completed_steps-start_step :
      (run key metadata run' key' : String)
      → exists (has_id run) d.pipeline_runs ≡ true
      → returns_key key' ((start_step fault run key metadata >> completed_steps fault run') d).0 ≡ (
          if same_step run key run' key'
          then false
          else contains key' (step_keys run' d.pipeline_steps))
  unfolding start_step completed_steps
  completed_steps-start_step run key metadata run' key' known = ground (
    arith,
    up.open_pool,
    up.answers d.queries,
    up.answers (d.queries + 1),
    step_keys-update_where run key run' key' "running" (next_attempt d.clock metadata) (λ s. refl)
        (λ s. refl) (λ s. refl) d.pipeline_steps,
    step_keys-append run key run' key' d.pipeline_steps (first_attempt d.clock run key metadata),
    not_completed run key run' key' d.pipeline_steps,
  )
