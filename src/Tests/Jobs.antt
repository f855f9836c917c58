-- ===== src/Tests/Jobs.antt =====
-- The theorems on the registry, at one with a finished and a pending job.
use stock_tracker_data_colle.Errors.{cancelled_error}
use stock_tracker_data_colle.Jobs.Shutdown.{shutdown_effect}
use stock_tracker_data_colle.Base.{◌≡◌, refl, false, none, some, [], ◌∷◌}
use stock_tracker_data_colle.Exec.{ok, is_ok, raised}
use stock_tracker_data_colle.Jobs
use stock_tracker_data_colle.Jobs.{
  PipelineJob, JobRegistry, init, submit, begin_job, finish_job, new_job, prune_terminal_jobs, get,
  shutdown,
}
use stock_tracker_data_colle.Jobs.Prune.{unfinished}
use stock_tracker_data_colle.Jobs.Invariant.{
  IsConsistent, Reach, here, next, submits, begins, finishes, init-Reach-IsConsistent,
  submit_decides,
}

abbrev pub empty : JobRegistry
empty = record { max_retained_jobs = 1; jobs = []; tasks = []; pending_pipelines = [] }

-- A job is submitted, started and ended, and another is submitted.
submitted : JobRegistry
unfolding submit
submitted = (submit false "j1" 1 "vnstock_company" empty).1

begun : JobRegistry
unfolding begin_job submitted
begun = begin_job 2 (new_job "j1" "vnstock_company" 1) submitted

abbrev started_job : PipelineJob
started_job = record (new_job "j1" "vnstock_company" 1) {
  status = Jobs.running;
  started_at = some 2;
}

ended : JobRegistry
unfolding finish_job begun
ended = finish_job 3 (ok tt) started_job begun

resubmitted : JobRegistry
unfolding submit ended
resubmitted = (submit false "j2" 4 "vnstock_company" ended).1

history : Reach empty resubmitted
unfolding submit begin_job finish_job prune_terminal_jobs submitted begun ended resubmitted
history =
    next
      (next
        (next (next here (submits false "j1" 1 "vnstock_company" refl))
          (begins 2 (new_job "j1" "vnstock_company" 1) refl refl))
        (finishes 3 (ok tt) started_job refl refl))
      (submits false "j2" 4 "vnstock_company" refl)

init-Reach-IsConsistent_example : IsConsistent resubmitted
unfolding init
init-Reach-IsConsistent_example = init-Reach-IsConsistent 1 empty resubmitted refl history

submit_decides_example :
    (is_ok (submit false "j3" 5 "vnstock_company" resubmitted).0 ≡ false)
    × (get "j3" (submit false "j3" 5 "vnstock_company" resubmitted).1 ≡ none)
unfolding init submit begin_job finish_job prune_terminal_jobs submitted begun ended resubmitted
submit_decides_example =
    submit_decides false "j3" 5 "vnstock_company" resubmitted
      (init-Reach-IsConsistent 1 empty resubmitted refl history) refl

-- One job has begun and another has not, when the registry is shut down.
abbrev two_jobs : JobRegistry
two_jobs = record {
  max_retained_jobs = 1;
  jobs = ("j1", started_job) ∷ ("j2", new_job "j2" "vnstock_listing" 3) ∷ [];
  tasks = "j2" ∷ "j1" ∷ [];
  pending_pipelines = "vnstock_listing" ∷ "vnstock_company" ∷ [];
}

two_submissions : Reach empty two_jobs
unfolding submit begin_job submitted begun
two_submissions =
    next
      (next (next here (submits false "j1" 1 "vnstock_company" refl))
        (begins 2 (new_job "j1" "vnstock_company" 1) refl refl))
      (submits false "j2" 3 "vnstock_listing" refl)

shutdown_effect_example :
    let after = shutdown 9 (λ job_id. raised cancelled_error) two_jobs in
    (after.tasks ≡ [])
    × IsConsistent after
    × (unfinished after.jobs ≡ ("j2", new_job "j2" "vnstock_listing" 3) ∷ [])
unfolding init
shutdown_effect_example =
    shutdown_effect 9 (λ job_id. raised cancelled_error) 1 empty two_jobs refl two_submissions
