-- ===== src/Jobs/Active.antt =====
-- The unfinished jobs of a registry, by pipeline, and what the steps do to them.
use stock_tracker_data_colle.Base.{
  ℕ, zero, suc, String, ◌≡◌, refl, Bool, true, false, not, ◌&&◌, ◌||◌, some, List, [], ◌∷◌, arith,
  ◌==◌, eq_iff, eq_refl, if◌then◌else◌, contains, length, lookup, insert,
}
use stock_tracker_data_colle.Jobs.{PipelineJob, is_finished}
use stock_tracker_data_colle.Jobs.Prune.{keys, Distinct, drop_finished, finished}

abbrev pub active : String → List (String × PipelineJob) → Bool
active p [] = false
active p ((i, job) ∷ jobs) = not (is_finished job) && job.pipeline == p || active p jobs

-- No pipeline has two unfinished jobs.
abbrev pub OnePerPipeline : List (String × PipelineJob) → Type 0
OnePerPipeline [] = Unit
OnePerPipeline ((i, job) ∷ jobs) =
    ((is_finished job || not (active job.pipeline jobs)) ≡ true) × OnePerPipeline jobs

-- A new job goes to the end.
module _ (id : String) (job : PipelineJob) where
  pub keys-insert_new :
      (k : String) (jobs : List (String × PipelineJob))
      → contains id (keys jobs) ≡ false
      → contains k (keys (insert id job jobs)) ≡ (contains k (keys jobs) || id == k)
  keys-insert_new k [] h = ground arith
  keys-insert_new k ((i, j) ∷ jobs) h = ground (arith, keys-insert_new k jobs)

  pub Distinct-insert_new :
      (jobs : List (String × PipelineJob))
      → contains id (keys jobs) ≡ false
      → Distinct (keys jobs)
      → Distinct (keys (insert id job jobs))
  Distinct-insert_new [] h d = (refl, tt)
  Distinct-insert_new ((i, j) ∷ jobs) h d =
      ground (arith, Distinct-insert_new jobs, keys-insert_new i jobs, eq_iff id i, eq_iff i id)

  pub active-insert_new :
      (p : String) (jobs : List (String × PipelineJob))
      → contains id (keys jobs) ≡ false
      → active p (insert id job jobs)
        ≡ (active p jobs || (not (is_finished job) && job.pipeline == p))
  active-insert_new p [] h = ground arith
  active-insert_new p ((i, j) ∷ jobs) h = ground (arith, active-insert_new p jobs)

  pub OnePerPipeline-insert_new :
      (jobs : List (String × PipelineJob))
      → contains id (keys jobs) ≡ false
      → active job.pipeline jobs ≡ false
      → OnePerPipeline jobs
      → OnePerPipeline (insert id job jobs)
  OnePerPipeline-insert_new [] h a o = ground arith
  OnePerPipeline-insert_new ((i, j) ∷ jobs) h a o = ground (
    arith,
    OnePerPipeline-insert_new jobs,
    active-insert_new j.pipeline jobs,
    eq_iff j.pipeline job.pipeline,
    eq_iff job.pipeline j.pipeline,
  )

  pub finished-insert_new :
      (jobs : List (String × PipelineJob))
      → contains id (keys jobs) ≡ false
      → is_finished job ≡ false
      → finished (insert id job jobs) ≡ finished jobs
  finished-insert_new [] h f = ground arith
  finished-insert_new ((i, j) ∷ jobs) h f = ground (arith, finished-insert_new jobs)

-- A job that is present is changed in its place.
module _ (id : String) (job job' : PipelineJob) where
  pub keys-insert_old :
      (jobs : List (String × PipelineJob))
      → lookup id jobs ≡ some job
      → keys (insert id job' jobs) ≡ keys jobs
  keys-insert_old [] h = cc
  keys-insert_old ((i, j) ∷ jobs) h = ground (arith, keys-insert_old jobs)

  -- a change that leaves the job unfinished, in its pipeline
  pub active-insert_same :
      (p : String) (jobs : List (String × PipelineJob))
      → lookup id jobs ≡ some job
      → job'.pipeline ≡ job.pipeline
      → is_finished job' ≡ is_finished job
      → active p (insert id job' jobs) ≡ active p jobs
  active-insert_same p [] h e f = cc
  active-insert_same p ((i, j) ∷ jobs) h e f = ground (arith, active-insert_same p jobs)

  pub OnePerPipeline-insert_same :
      (jobs : List (String × PipelineJob))
      → lookup id jobs ≡ some job
      → job'.pipeline ≡ job.pipeline
      → is_finished job' ≡ is_finished job
      → OnePerPipeline jobs
      → OnePerPipeline (insert id job' jobs)
  OnePerPipeline-insert_same [] h e f o = cc
  OnePerPipeline-insert_same ((i, j) ∷ jobs) h e f o =
      ground (arith, OnePerPipeline-insert_same jobs, active-insert_same j.pipeline jobs)

  pub finished-insert_same :
      (jobs : List (String × PipelineJob))
      → lookup id jobs ≡ some job
      → is_finished job' ≡ is_finished job
      → length (finished (insert id job' jobs)) ≡ length (finished jobs)
  finished-insert_same [] h f = cc
  finished-insert_same ((i, j) ∷ jobs) h f = ground (arith, finished-insert_same jobs)

  -- the unfinished job, of its pipeline the only one, is finished
  pub active_at :
      (jobs : List (String × PipelineJob))
      → lookup id jobs ≡ some job
      → is_finished job ≡ false
      → active job.pipeline jobs ≡ true
  active_at [] h f = cc
  active_at ((i, j) ∷ jobs) h f = ground (arith, active_at jobs, eq_refl job.pipeline)

  pub active-insert_finished :
      (p : String) (jobs : List (String × PipelineJob))
      → lookup id jobs ≡ some job
      → is_finished job ≡ false
      → is_finished job' ≡ true
      → OnePerPipeline jobs
      → active p (insert id job' jobs) ≡ (if job.pipeline == p then false else active p jobs)
  active-insert_finished p [] h f f' o = cc
  active-insert_finished p ((i, j) ∷ jobs) h f f' o = ground (
    arith,
    active-insert_finished p jobs,
    active_at jobs,
    eq_iff job.pipeline p,
    eq_iff j.pipeline p,
    eq_iff j.pipeline job.pipeline,
  )

  pub OnePerPipeline-insert_finished :
      (jobs : List (String × PipelineJob))
      → lookup id jobs ≡ some job
      → is_finished job ≡ false
      → is_finished job' ≡ true
      → OnePerPipeline jobs
      → OnePerPipeline (insert id job' jobs)
  OnePerPipeline-insert_finished [] h f f' o = cc
  OnePerPipeline-insert_finished ((i, j) ∷ jobs) h f f' o =
      ground (arith, OnePerPipeline-insert_finished jobs, active-insert_finished j.pipeline jobs)

-- Dropping finished jobs.
pub active-drop_finished :
    (p : String) (n : ℕ) (jobs : List (String × PipelineJob))
    → active p (drop_finished n jobs) ≡ active p jobs
active-drop_finished p zero [] = refl
active-drop_finished p (suc n) [] = refl
active-drop_finished p zero (entry ∷ jobs) = refl
active-drop_finished p (suc n) ((i, job) ∷ jobs) =
    ground (arith, active-drop_finished p n jobs, active-drop_finished p (suc n) jobs)

pub OnePerPipeline-drop_finished :
    (n : ℕ) (jobs : List (String × PipelineJob))
    → OnePerPipeline jobs
    → OnePerPipeline (drop_finished n jobs)
OnePerPipeline-drop_finished zero [] o = tt
OnePerPipeline-drop_finished (suc n) [] o = tt
OnePerPipeline-drop_finished zero (entry ∷ jobs) o = o
OnePerPipeline-drop_finished (suc n) ((i, job) ∷ jobs) o = ground (
  arith,
  OnePerPipeline-drop_finished n jobs,
  OnePerPipeline-drop_finished (suc n) jobs,
  active-drop_finished job.pipeline (suc n) jobs,
)

absent-drop_finished :
    (k : String) (n : ℕ) (jobs : List (String × PipelineJob))
    → contains k (keys jobs) ≡ false
    → contains k (keys (drop_finished n jobs)) ≡ false
absent-drop_finished k zero [] h = refl
absent-drop_finished k (suc n) [] h = refl
absent-drop_finished k zero (entry ∷ jobs) h = h
absent-drop_finished k (suc n) ((i, job) ∷ jobs) h =
    ground (arith, absent-drop_finished k n jobs, absent-drop_finished k (suc n) jobs)

pub Distinct-drop_finished :
    (n : ℕ) (jobs : List (String × PipelineJob))
    → Distinct (keys jobs)
    → Distinct (keys (drop_finished n jobs))
Distinct-drop_finished zero [] d = tt
Distinct-drop_finished (suc n) [] d = tt
Distinct-drop_finished zero (entry ∷ jobs) d = d
Distinct-drop_finished (suc n) ((i, job) ∷ jobs) d = ground (
  arith,
  Distinct-drop_finished n jobs,
  Distinct-drop_finished (suc n) jobs,
  absent-drop_finished i (suc n) jobs,
)
