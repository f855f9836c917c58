-- ===== src/Metrics/Render.antt =====
-- The text that HttpMetrics.render makes of the counters. `str` is what Python prints of a number.
use Prim.Native.Char.{code}
use Prim.Native.String.{String}
use stock_tracker_data_colle.Base.{
  ℕ, Bool, true, false, eqb, ◌&&◌, ◌||◌, ◌==◌, ltb, List, [], ◌∷◌, ◌++◌, if◌then◌else◌, format,
}
use stock_tracker_data_colle.Metrics.{HttpMetrics, sum_at, same_request, same_run}

-- The order of texts, by code points, and of the tuples that are the keys.
unfoldable pub text_before : String → String → Bool
text_before String.[] String.[] = false
text_before String.[] (String.◌∷◌ d t) = true
text_before (String.◌∷◌ c s) String.[] = false
text_before (String.◌∷◌ c s) (String.◌∷◌ d t) =
    ltb (code c) (code d) || (eqb (code c) (code d) && text_before s t)

abbrev pub request_before : String × ℕ → String × ℕ → Bool
request_before (m, s) (m', s') = text_before m m' || (m == m' && ltb s s')

abbrev pub run_before : String × String → String × String → Bool
run_before (p, s) (p', s') = text_before p p' || (p == p' && text_before s s')

-- sorted(d.items()), of a dict: its keys are distinct, so that they decide
module _ {K : Type 0} (before : K → K → Bool) where
  abbrev pub place : K × ℕ → List (K × ℕ) → List (K × ℕ)
  place (k, n) [] = (k, n) ∷ []
  place (k, n) ((j, m) ∷ items) =
      let rest = place (k, n) items in if before k j then (k, n) ∷ (j, m) ∷ items else (j, m) ∷ rest

  unfoldable pub sorted : List (K × ℕ) → List (K × ℕ)
  sorted [] = []
  sorted (item ∷ items) = place item (sorted items)

abbrev pub join_lines : List String → String
join_lines [] = ""
join_lines (line ∷ lines) = format (line ∷ "\n" ∷ join_lines lines ∷ [])

-- `str` prints a natural number, and `str_sum` the float that adding the terms in order to 0.0 gives.
module _ (str : ℕ → String) (str_sum : List ℕ → String) where
  -- one sample: the name with its labels, and the value
  abbrev pub sample : String → String → String → String
  sample name labels value = format (name ∷ "{" ∷ labels ∷ "} " ∷ value ∷ [])

  abbrev pub request_labels : String → String → ℕ → String
  request_labels service method status =
      format
        ("service=\"" ∷ service ∷ "\",method=\"" ∷ method ∷ "\",status=\"" ∷ str status ∷ "\"" ∷ [])

  abbrev pub run_labels : String → String → String
  run_labels pipeline status =
      format ("pipeline=\"" ∷ pipeline ∷ "\",status=\"" ∷ status ∷ "\"" ∷ [])

  -- the loops over the sorted items
  abbrev pub request_lines : HttpMetrics → List ((String × ℕ) × ℕ) → List String
  request_lines m [] = []
  request_lines m (((method, status), count) ∷ items) =
      let labels = request_labels m.service method status in
      sample "stocktracker_http_requests_total" labels (str count)
      ∷ sample "stocktracker_http_request_duration_seconds_sum" labels
          (str_sum (sum_at same_request (method, status) m.duration_sum))
      ∷ sample "stocktracker_http_request_duration_seconds_count" labels (str count)
      ∷ request_lines m items

  abbrev pub run_lines : HttpMetrics → List ((String × String) × ℕ) → List String
  run_lines m [] = []
  run_lines m (((pipeline, status), count) ∷ items) =
      let labels = run_labels pipeline status in
      sample "stocktracker_pipeline_runs_total" labels (str count)
      ∷ sample "stocktracker_pipeline_duration_seconds_sum" labels
          (str_sum (sum_at same_run (pipeline, status) m.pipeline_duration_sum))
      ∷ sample "stocktracker_pipeline_duration_seconds_count" labels (str count)
      ∷ run_lines m items

  abbrev pub success_lines : List (String × ℕ) → List String
  success_lines [] = []
  success_lines ((pipeline, timestamp) ∷ items) =
      sample "stocktracker_pipeline_last_success_timestamp_seconds"
        (format ("pipeline=\"" ∷ pipeline ∷ "\"" ∷ [])) (str_sum (timestamp ∷ []))
      ∷ success_lines items

  -- render
  unfoldable pub render : HttpMetrics → String
  render m = join_lines (
      ("# HELP stocktracker_http_requests_total Total HTTP requests."
        ∷ "# TYPE stocktracker_http_requests_total counter" ∷ [])
      ++ (request_lines m (sorted request_before m.requests)
          ++ (("# HELP stocktracker_pipeline_runs_total Total pipeline runs by terminal status."
                ∷ "# TYPE stocktracker_pipeline_runs_total counter" ∷ [])
              ++ (run_lines m (sorted run_before m.pipeline_runs)
                  ++ (("# HELP stocktracker_pipeline_last_success_timestamp_seconds Last successful pipeline completion."
                        ∷ "# TYPE stocktracker_pipeline_last_success_timestamp_seconds gauge" ∷ [])
                      ++ success_lines (sorted text_before m.pipeline_last_success))))))
