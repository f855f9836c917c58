-- ===== src/Metrics.antt =====
-- app/middleware/metrics.py: the counters of HttpMetrics, and the ASGI middleware around them.
-- Durations and times are readings of a clock, each a number. A sum of durations, which Python adds as
-- floats, is kept as the durations in the order in which they are added.
pub mod Laws
pub mod Render
mod Order
mod Sorted
pub mod Stable
pub mod Middleware
use Prim.Native.Char.{code}
use Prim.Native.String
use stock_tracker_data_colle.Base.{
  ℕ, ◌+◌, String, Bool, ◌&&◌, Option, none, some, List, [], ◌∷◌, ◌++◌, eqb, ◌==◌, if◌then◌else◌,
  insert,
}

-- A defaultdict of numbers: a missing key counts 0, and `d[key] += amount`.
module _ {ℓ} {K : Type ℓ} (same : K → K → Bool) where
  abbrev pub value_at : K → List (K × ℕ) → ℕ
  value_at k [] = 0
  value_at k ((j, n) ∷ m) = if same j k then n else value_at k m

  abbrev pub add_at : K → ℕ → List (K × ℕ) → List (K × ℕ)
  add_at k amount [] = (k, amount) ∷ []
  add_at k amount ((j, n) ∷ m) =
      if same j k then (j, n + amount) ∷ m else (j, n) ∷ add_at k amount m

-- A defaultdict of sums: a missing key is the sum of none, and `d[key] += amount`.
module _ {ℓ} {K : Type ℓ} (same : K → K → Bool) where
  abbrev pub sum_at : K → List (K × List ℕ) → List ℕ
  sum_at k [] = []
  sum_at k ((j, terms) ∷ m) = if same j k then terms else sum_at k m

  abbrev pub extend_at : K → ℕ → List (K × List ℕ) → List (K × List ℕ)
  extend_at k amount [] = (k, amount ∷ []) ∷ []
  extend_at k amount ((j, terms) ∷ m) =
      if same j k then (j, terms ++ amount ∷ []) ∷ m else (j, terms) ∷ extend_at k amount m

abbrev pub same_request : String × ℕ → String × ℕ → Bool
same_request (m, s) (m', s') = m == m' && eqb s s'

abbrev pub same_run : String × String → String × String → Bool
same_run (p, s) (p', s') = p == p' && s == s'

-- service.replace('"', '\\"'): 34 is the quote
abbrev pub escaped : String → String
escaped String.[] = String.[]
escaped (String.◌∷◌ c s) =
    let rest = escaped s in if eqb (code c) 34 then String.◌++◌ "\\\"" rest else String.◌∷◌ c rest

pub record HttpMetrics : Type 0 where
  pub service : String
  pub requests : List ((String × ℕ) × ℕ)
  pub duration_sum : List ((String × ℕ) × List ℕ)
  pub pipeline_runs : List ((String × String) × ℕ)
  pub pipeline_duration_sum : List ((String × String) × List ℕ)
  pub pipeline_last_success : List (String × ℕ)

-- __init__, of a service whose quotes are escaped
unfoldable pub init : String → HttpMetrics
init service = record {
  service = escaped service;
  requests = [];
  duration_sum = [];
  pipeline_runs = [];
  pipeline_duration_sum = [];
  pipeline_last_success = [];
}

unfoldable pub observe : String → ℕ → ℕ → HttpMetrics → HttpMetrics
observe method status duration m = record m {
  requests = add_at same_request (method, status) 1 m.requests;
  duration_sum = extend_at same_request (method, status) duration m.duration_sum;
}

unfoldable pub observe_pipeline : String → String → ℕ → ℕ → HttpMetrics → HttpMetrics
observe_pipeline pipeline status duration finished_at m = record m {
  pipeline_runs = add_at same_run (pipeline, status) 1 m.pipeline_runs;
  pipeline_duration_sum = extend_at same_run (pipeline, status) duration m.pipeline_duration_sum;
  pipeline_last_success =
      if status == "completed"
      then insert pipeline finished_at m.pipeline_last_success
      else m.pipeline_last_success;
}

-- The samples that `render` prints.
abbrev pub run_count : String → String → HttpMetrics → ℕ
run_count pipeline status m = value_at same_run (pipeline, status) m.pipeline_runs
