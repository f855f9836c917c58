-- ===== src/Jobs/Prune.antt =====
-- What pruning keeps: every job that is not finished, and the most recent of the finished ones.
use stock_tracker_data_colle.Base.{
  ℕ, zero, suc, ◌-◌, ◌≤◌, String, ◌≡◌, refl, ap, false, List, [], ◌∷◌, arith, eq_iff, eq_refl,
  if◌then◌else◌, contains, length, take, drop, length-drop, inl, inr, ◌∙◌, Bool-cases,
}
use stock_tracker_data_colle.Jobs.{
  PipelineJob, JobRegistry, is_finished, terminal_job_ids, pop, pop_all, prune_terminal_jobs,
}

abbrev pub keys : List (String × PipelineJob) → List String
keys [] = []
keys ((i, job) ∷ jobs) = i ∷ keys jobs

-- No key twice, as in every dict.
abbrev pub Distinct : List String → Type 0
Distinct [] = Unit
Distinct (k ∷ ks) = (contains k ks ≡ false) × Distinct ks

-- The jobs without the first `k` finished ones.
abbrev pub drop_finished : ℕ → List (String × PipelineJob) → List (String × PipelineJob)
drop_finished k [] = []
drop_finished zero (entry ∷ jobs) = entry ∷ jobs
drop_finished (suc k) ((i, job) ∷ jobs) =
    if is_finished job then drop_finished k jobs else (i, job) ∷ drop_finished (suc k) jobs

abbrev pub unfinished : List (String × PipelineJob) → List (String × PipelineJob)
unfinished [] = []
unfinished ((i, job) ∷ jobs) =
    let rest = unfinished jobs in if is_finished job then rest else (i, job) ∷ rest

abbrev pub finished : List (String × PipelineJob) → List (String × PipelineJob)
finished [] = []
finished ((i, job) ∷ jobs) =
    let rest = finished jobs in if is_finished job then (i, job) ∷ rest else rest

terminal-absent :
    (k : String) (n : ℕ) (jobs : List (String × PipelineJob))
    → contains k (keys jobs) ≡ false
    → contains k (take n (terminal_job_ids jobs)) ≡ false
terminal-absent k zero jobs h = refl
terminal-absent k (suc n) [] h = refl
terminal-absent k (suc n) ((i, job) ∷ jobs) h =
    ground (arith, terminal-absent k n jobs, terminal-absent k (suc n) jobs)

pop_all-absent :
    (ids : List String) (i : String) (job : PipelineJob) (jobs : List (String × PipelineJob))
    → contains i ids ≡ false
    → pop_all ids ((i, job) ∷ jobs) ≡ (i, job) ∷ pop_all ids jobs
pop_all-absent [] i job jobs h = refl
pop_all-absent (k ∷ ids) i job jobs h =
    ground (arith, pop_all-absent ids i job (pop k jobs), eq_iff i k, eq_iff k i)

pub pop_all-take :
    (n : ℕ) (jobs : List (String × PipelineJob))
    → Distinct (keys jobs)
    → pop_all (take n (terminal_job_ids jobs)) jobs ≡ drop_finished n jobs
pop_all-take zero [] d = refl
pop_all-take (suc n) [] d = refl
pop_all-take zero (entry ∷ jobs) d = refl
pop_all-take (suc n) ((i, job) ∷ jobs) d = elim (Bool-cases (is_finished job)) [
  | inr active ↦ rw active (
      pop_all-absent (take (suc n) (terminal_job_ids jobs)) i job jobs
        (terminal-absent i (suc n) jobs d.0)
      ∙ ap (λ l. (i, job) ∷ l) (pop_all-take (suc n) jobs d.1))
  | inl done ↦ rw done (rw (eq_refl i) (pop_all-take n jobs d.1))
]

pub length-terminal :
    (jobs : List (String × PipelineJob)) → length (terminal_job_ids jobs) ≡ length (finished jobs)
length-terminal [] = refl
length-terminal ((i, job) ∷ jobs) = ground (arith, length-terminal jobs)

unfinished-drop_finished :
    (n : ℕ) (jobs : List (String × PipelineJob))
    → unfinished (drop_finished n jobs) ≡ unfinished jobs
unfinished-drop_finished zero [] = refl
unfinished-drop_finished (suc n) [] = refl
unfinished-drop_finished zero (entry ∷ jobs) = refl
unfinished-drop_finished (suc n) ((i, job) ∷ jobs) =
    ground (arith, unfinished-drop_finished n jobs, unfinished-drop_finished (suc n) jobs)

finished-drop_finished :
    (n : ℕ) (jobs : List (String × PipelineJob))
    → finished (drop_finished n jobs) ≡ drop n (finished jobs)
finished-drop_finished zero [] = refl
finished-drop_finished (suc n) [] = refl
finished-drop_finished zero (entry ∷ jobs) = refl
finished-drop_finished (suc n) ((i, job) ∷ jobs) =
    ground (arith, finished-drop_finished n jobs, finished-drop_finished (suc n) jobs)

-- When no identifier names two jobs, pruning keeps every job that is not finished, in order, and
-- of the finished jobs the last `max_retained_jobs` in the order of submission, so that at most
-- that many are left.
pub prune_terminal_jobs_effect :
    (r : JobRegistry)
    → Distinct (keys r.jobs)
    → (unfinished (prune_terminal_jobs r).jobs ≡ unfinished r.jobs)
      × (finished (prune_terminal_jobs r).jobs
          ≡ drop (length (finished r.jobs) - r.max_retained_jobs) (finished r.jobs))
      × (length (finished (prune_terminal_jobs r).jobs) ≤ r.max_retained_jobs)
unfolding prune_terminal_jobs
prune_terminal_jobs_effect r d =
    rw (pop_all-take (length (terminal_job_ids r.jobs) - r.max_retained_jobs) r.jobs d) (
      rw (length-terminal r.jobs) (
        unfinished-drop_finished _ r.jobs,
        finished-drop_finished _ r.jobs,
        rw finished-drop_finished (
            omega (
              arith,
              length-drop (length (finished r.jobs) - r.max_retained_jobs) (finished r.jobs),
            )),
      ))
