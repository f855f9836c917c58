-- ===== src/Metrics/Laws.antt =====
-- What an observation does to the counters.
use stock_tracker_data_colle.Base.{
  ℕ, ◌+◌, String, ◌≡◌, ◌↔◌, true, some, List, [], ◌∷◌, ◌++◌, arith, ◌==◌, ◌&&◌, eq_iff,
  if◌then◌else◌, lookup, lookup-insert, Bool,
}
use stock_tracker_data_colle.Metrics.{
  value_at, add_at, sum_at, extend_at, same_run, same_request, HttpMetrics, observe,
  observe_pipeline, run_count,
}

module _ {K : Type 0} (same : K → K → Bool)
    (same_iff : (k j : K) → (same k j ≡ true) ↔ (k ≡ j)) where
  -- An addition at a key counts there and nowhere else.
  pub value_at-add_at :
      (k k' : K) (n : ℕ) (m : List (K × ℕ))
      → value_at same k' (add_at same k n m) ≡ value_at same k' m + (if same k k' then n else 0)
  value_at-add_at k k' n [] = ground arith
  value_at-add_at k k' n ((j, x) ∷ m) =
      ground (arith, value_at-add_at k k' n m, same_iff j k, same_iff j k', same_iff k k')

  -- An addition to a sum is its last term, and adds to no other sum.
  pub sum_at-extend_at :
      (k k' : K) (n : ℕ) (m : List (K × List ℕ))
      → sum_at same k' (extend_at same k n m)
        ≡ (if same k k' then sum_at same k' m ++ n ∷ [] else sum_at same k' m)
  sum_at-extend_at k k' n [] = ground (arith, same_iff k k')
  sum_at-extend_at k k' n ((j, x) ∷ m) =
      ground (arith, sum_at-extend_at k k' n m, same_iff j k, same_iff j k', same_iff k k')

pub same_run_iff : (r r' : String × String) → (same_run r r' ≡ true) ↔ (r ≡ r')
same_run_iff (p, s) (p', s') = ground (arith, eq_iff p p', eq_iff s s')

pub same_request_iff : (r r' : String × ℕ) → (same_request r r' ≡ true) ↔ (r ≡ r')
same_request_iff (m, s) (m', s') = ground (arith, eq_iff m m')

-- the requests that were counted with a method and a status
abbrev pub request_count : String → ℕ → HttpMetrics → ℕ
request_count method status m = value_at same_request (method, status) m.requests

-- An observed request adds one to the counter of its method and status and to no other.
pub observe-request_count :
    (method : String) (status duration : ℕ) (method' : String) (status' : ℕ) (m : HttpMetrics)
    → request_count method' status' (observe method status duration m)
      ≡ request_count method' status' m
        + (if same_request (method, status) (method', status') then 1 else 0)
unfolding observe
observe-request_count method status duration method' status' m =
    value_at-add_at same_request same_request_iff (method, status) (method', status') 1 m.requests

-- An observed run adds one to the counter of its pipeline and status and to no other, and moves
-- the last-success time of its pipeline exactly when the status is `completed`.
observe_pipeline_effect :
    (p s p' s' : String) (d t : ℕ) (m : HttpMetrics)
    → (run_count p' s' (observe_pipeline p s d t m)
        ≡ run_count p' s' m + (if p == p' && s == s' then 1 else 0))
      × (lookup p' (observe_pipeline p s d t m).pipeline_last_success
          ≡ (if s == "completed" && p == p' then some t else lookup p' m.pipeline_last_success))
unfolding observe_pipeline
observe_pipeline_effect p s p' s' d t m = (
  value_at-add_at same_run same_run_iff (p, s) (p', s') 1 m.pipeline_runs,
  ground (arith, lookup-insert p p' t m.pipeline_last_success),
)
