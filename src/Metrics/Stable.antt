-- ===== src/Metrics/Stable.antt =====
-- The text of the metrics, and the order in which the requests come.
use stock_tracker_data_colle.Base.{
  ℕ, String, ◌≡◌, refl, ◌∙◌, Bool, false, Option, List, [], ◌∷◌, arith,
}
use stock_tracker_data_colle.Metrics.{
  sum_at, extend_at, add_at, same_request, HttpMetrics, observe, init,
}
use stock_tracker_data_colle.Metrics.Laws.{sum_at-extend_at, same_request_iff}
use stock_tracker_data_colle.Metrics.Render.{
  request_before, run_before, sorted, request_lines, run_lines, render,
}
use stock_tracker_data_colle.Metrics.Order.{
  request_before_irrefl, request_before_trans, request_before_total,
}
use stock_tracker_data_colle.Metrics.Sorted.{
  find, Distinct, find-add_at, Distinct-add_at, sorted-find,
}

-- A request that was served: its method, its status and its duration.
pub record Served : Type 0 where
  pub method : String
  pub status : ℕ
  pub duration : ℕ

abbrev pub observe_one : Served → HttpMetrics → HttpMetrics
observe_one r = observe r.method r.status r.duration

abbrev pub observe_all : List Served → HttpMetrics → HttpMetrics
observe_all [] m = m
observe_all (r ∷ requests) m = observe_all requests (observe_one r m)

abbrev pub found : String × ℕ → HttpMetrics → Option ℕ
found k m = find same_request same_request_iff k m.requests

-- The same counts and durations, perhaps in another order.
record Agree (m m' : HttpMetrics) : Type 0 where
  counts : (k : String × ℕ) → found k m ≡ found k m'
  durations :
      (k : String × ℕ)
      → sum_at same_request k m.duration_sum ≡ sum_at same_request k m'.duration_sum
  distinct : Distinct same_request same_request_iff m.requests
  distinct' : Distinct same_request same_request_iff m'.requests
  service : m.service ≡ m'.service
  runs : m.pipeline_runs ≡ m'.pipeline_runs
  run_durations : m.pipeline_duration_sum ≡ m'.pipeline_duration_sum
  successes : m.pipeline_last_success ≡ m'.pipeline_last_success

Agree-refl : (m : HttpMetrics) → Distinct same_request same_request_iff m.requests → Agree m m
Agree-refl m d = record {
  counts = λ k. refl;
  durations = λ k. refl;
  distinct = d;
  distinct' = d;
  service = refl;
  runs = refl;
  run_durations = refl;
  successes = refl;
}

Agree-trans : {m m' m'' : HttpMetrics} → Agree m m' → Agree m' m'' → Agree m m''
Agree-trans a b = record {
  counts = λ k. a.counts k ∙ b.counts k;
  durations = λ k. a.durations k ∙ b.durations k;
  distinct = a.distinct;
  distinct' = b.distinct';
  service = a.service ∙ b.service;
  runs = a.runs ∙ b.runs;
  run_durations = a.run_durations ∙ b.run_durations;
  successes = a.successes ∙ b.successes;
}

observe-Agree :
    (r : Served) {m m' : HttpMetrics} → Agree m m' → Agree (observe_one r m) (observe_one r m')
unfolding observe
observe-Agree r {m} {m'} a =
    let key : String × ℕ = (r.method, r.status) in
    record {
      counts = λ k. ground (
        arith,
        find-add_at same_request same_request_iff key k 1 m.requests,
        find-add_at same_request same_request_iff key k 1 m'.requests,
        a.counts k,
      );
      durations = λ k. ground (
        arith,
        sum_at-extend_at same_request same_request_iff key k r.duration m.duration_sum,
        sum_at-extend_at same_request same_request_iff key k r.duration m'.duration_sum,
        a.durations k,
      );
      distinct = Distinct-add_at same_request same_request_iff key 1 m.requests a.distinct;
      distinct' = Distinct-add_at same_request same_request_iff key 1 m'.requests a.distinct';
      service = a.service;
      runs = a.runs;
      run_durations = a.run_durations;
      successes = a.successes;
    }

-- Whether two requests are counted under the same method and status.
abbrev pub is_alike : Served → Served → Bool
is_alike r s = same_request (r.method, r.status) (s.method, s.status)

-- The second list is the first in another order, in which requests that are alike keep their order.
pub data Reordered : List Served → List Served → Type 0 where
  none_left : Reordered [] []
  kept : {r : Served} {xs ys : List Served} → Reordered xs ys → Reordered (r ∷ xs) (r ∷ ys)
  swapped :
      {r s : Served} {xs : List Served} → is_alike r s ≡ false → Reordered (r ∷ s ∷ xs) (s ∷ r ∷ xs)
  then_reordered : {xs ys zs : List Served} → Reordered xs ys → Reordered ys zs → Reordered xs zs

observe-swap :
    (r s : Served) (m : HttpMetrics)
    → is_alike r s ≡ false
    → Distinct same_request same_request_iff m.requests
    → Agree (observe_one s (observe_one r m)) (observe_one r (observe_one s m))
unfolding observe
observe-swap r s m apart d =
    let k1 : String × ℕ = (r.method, r.status) in
    let k2 : String × ℕ = (s.method, s.status) in
    let first = add_at same_request k1 1 m.requests in
    let second = add_at same_request k2 1 m.requests in
    let d1 = Distinct-add_at same_request same_request_iff k1 1 m.requests d in
    let d2 = Distinct-add_at same_request same_request_iff k2 1 m.requests d in
    record {
      counts = λ k. ground (
        arith,
        find-add_at same_request same_request_iff k2 k 1 first,
        find-add_at same_request same_request_iff k1 k 1 m.requests,
        find-add_at same_request same_request_iff k1 k 1 second,
        find-add_at same_request same_request_iff k2 k 1 m.requests,
      );
      durations = λ k. ground (
        arith,
        sum_at-extend_at same_request same_request_iff k2 k s.duration
            (extend_at same_request k1 r.duration m.duration_sum),
        sum_at-extend_at same_request same_request_iff k1 k r.duration m.duration_sum,
        sum_at-extend_at same_request same_request_iff k1 k r.duration
            (extend_at same_request k2 s.duration m.duration_sum),
        sum_at-extend_at same_request same_request_iff k2 k s.duration m.duration_sum,
        apart,
        same_request_iff k1 k,
        same_request_iff k2 k,
        same_request_iff k1 k2,
      );
      distinct = Distinct-add_at same_request same_request_iff k2 1 first d1;
      distinct' = Distinct-add_at same_request same_request_iff k1 1 second d2;
      service = refl;
      runs = refl;
      run_durations = refl;
      successes = refl;
    }

observe_all-same :
    (l : List Served) {m m' : HttpMetrics} → Agree m m' → Agree (observe_all l m) (observe_all l m')
observe_all-same [] a = a
observe_all-same (r ∷ l) a = observe_all-same l (observe-Agree r a)

observe_all-Agree :
    {xs ys : List Served}
    → Reordered xs ys
    → {m m' : HttpMetrics} → Agree m m'
    → Agree (observe_all xs m) (observe_all ys m')
observe_all-Agree none_left a = a
observe_all-Agree (kept p) a = observe_all-Agree p (observe-Agree _ a)
observe_all-Agree (swapped {r = r} {s = s} {xs = l} apart) {m} {m'} a =
    observe_all-same l
      (Agree-trans (observe-swap r s m apart a.distinct) (observe-Agree r (observe-Agree s a)))
observe_all-Agree (then_reordered p q) {m} {m'} a =
    Agree-trans (observe_all-Agree p a) (observe_all-Agree q (Agree-refl m' a.distinct'))

module _ (str : ℕ → String) (str_sum : List ℕ → String) (m m' : HttpMetrics) (a : Agree m m') where
  request_lines-Agree :
      (items : List ((String × ℕ) × ℕ))
      → request_lines str str_sum m items ≡ request_lines str str_sum m' items
  request_lines-Agree [] = refl
  request_lines-Agree (((method, status), count) ∷ items) =
      rw (a.service, a.durations (method, status), request_lines-Agree items) refl

  run_lines-Agree :
      (items : List ((String × String) × ℕ))
      → run_lines str str_sum m items ≡ run_lines str str_sum m' items
  run_lines-Agree [] = refl
  run_lines-Agree (((pipeline, status), count) ∷ items) =
      rw (a.run_durations, run_lines-Agree items) refl

  render-Agree : render str str_sum m ≡ render str str_sum m'
  unfolding render
  render-Agree =
      let items : sorted request_before m.requests ≡ sorted request_before m'.requests =
        sorted-find same_request same_request_iff request_before request_before_irrefl
          request_before_trans request_before_total m.requests m'.requests a.distinct a.distinct'
          a.counts in
      rw
        (
          request_lines-Agree (sorted request_before m.requests),
          items,
          run_lines-Agree (sorted run_before m.pipeline_runs),
          a.runs,
          a.successes,
        )
        refl

-- Requests of a service are observed in two orders, in which the requests of one method and status
-- follow each other in the same way: the text that is rendered is the same. So how the requests of
-- different methods or statuses interleave does not show in it.
pub render-reordered :
    (str : ℕ → String) (str_sum : List ℕ → String) (service : String) (xs ys : List Served)
    → Reordered xs ys
    → render str str_sum (observe_all xs (init service))
      ≡ render str str_sum (observe_all ys (init service))
unfolding init
render-reordered str str_sum service xs ys p =
    render-Agree str str_sum (observe_all xs (init service)) (observe_all ys (init service))
      (observe_all-Agree p (Agree-refl (init service) tt))
