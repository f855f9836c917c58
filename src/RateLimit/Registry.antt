-- ===== src/RateLimit/Registry.antt =====
-- The buckets by source.
use stock_tracker_data_colle.Base.{
  ℕ, String, ◌≡◌, true, List, [], ◌∷◌, arith, if◌then◌else◌, lookup, insert, lookup-insert, is_some,
  Option-cases, inl, inr, ◌*◌, ltb, leb, ◌&&◌,
}
use stock_tracker_data_colle.Exec.{ok, raised, is_ok}
use stock_tracker_data_colle.Config.{Settings, fields_valid}
use stock_tracker_data_colle.RateLimit.{
  AsyncTokenBucket, RateLimiterRegistry, new_registry, register, bucket_key, registry_round,
  acquire_round, bucket_of, token_unit,
}

-- Calls on a registry that is built from the settings: registrations, and rounds of `acquire`.
data Call : Type 0 where
  registers : String → ℕ → ℕ → ℕ → Call
  acquires : String → ℕ → ℕ → Call

-- A call that raises leaves the registry as it is.
unfoldable perform : Call → RateLimiterRegistry → RateLimiterRegistry
perform (registers key rate burst now) r = elim (register key rate burst now r) [
  | ok r' ↦ r'
  | raised e ↦ r
]
perform (acquires source_key tokens now) r = elim (registry_round source_key tokens now r) [
  | ok (done, r') ↦ r'
  | raised e ↦ r
]

unfoldable perform_all : List Call → RateLimiterRegistry → RateLimiterRegistry
perform_all [] r = r
perform_all (call ∷ calls) r = perform_all calls (perform call r)

abbrev HasHttp : RateLimiterRegistry → Type 0
HasHttp r = is_some (lookup "http" r.buckets) ≡ true

http-insert :
    (key : String) (b : AsyncTokenBucket) (r : RateLimiterRegistry)
    → HasHttp r
    → is_some (lookup "http" (insert key b r.buckets)) ≡ true
http-insert key b r h = ground (arith, lookup-insert key "http" b r.buckets)

perform-HasHttp : (call : Call) (r : RateLimiterRegistry) → HasHttp r → HasHttp (perform call r)
unfolding perform register
perform-HasHttp (registers key rate burst now) r h = ground (
  arith,
  http-insert key
      (record {
        rate = rate;
        burst = burst * token_unit;
        tokens = burst * token_unit;
        last_ts = now;
      })
      r h,
)
perform-HasHttp (acquires key tokens now) r h = elim (Option-cases (lookup key r.buckets)) [
  | inr (b, found) ↦
      unfold registry_round in
      ground (arith, http-insert key (bucket_of (acquire_round tokens now b)) r h)
  | inl missing ↦ elim (Option-cases (lookup "http" r.buckets)) [
    | inr (b, found) ↦
        unfold registry_round in
        ground (arith, http-insert "http" (bucket_of (acquire_round tokens now b)) r h)
    | inl none_left ↦ unfold registry_round in ground arith
  ]
]

perform_all-HasHttp :
    (calls : List Call) (r : RateLimiterRegistry) → HasHttp r → HasHttp (perform_all calls r)
unfolding perform_all
perform_all-HasHttp [] r h = h
perform_all-HasHttp (call ∷ calls) r h =
    perform_all-HasHttp calls (perform call r) (perform-HasHttp call r h)

new_registry-HasHttp :
    (s : Settings) (now : ℕ) (r : RateLimiterRegistry) → new_registry s now ≡ ok r → HasHttp r
unfolding new_registry
new_registry-HasHttp s now r made = ground arith

total :
    (source_key : String) (r : RateLimiterRegistry)
    → HasHttp r
    → (b : AsyncTokenBucket) × (bucket_key source_key r
        ≡ ok (if is_some (lookup source_key r.buckets) then source_key else "http", b))
unfolding bucket_key
total source_key r h = elim (Option-cases (lookup source_key r.buckets)) [
  | inr (b, found) ↦ (b, ground arith)
  | inl missing ↦ elim (Option-cases (lookup "http" r.buckets)) [
    | inr (b, found) ↦ (b, ground arith)
    | inl none_left ↦ absurd (ground arith)
  ]
]

-- After any calls on a registry that was built from settings, every source has a bucket, its own if
-- it has one and else that of `http`: `acquire` never raises KeyError.
bucket_key_total :
    (s : Settings) (now : ℕ) (r : RateLimiterRegistry) (calls : List Call) (source_key : String)
    → new_registry s now ≡ ok r
    → let after = perform_all calls r in
      (b : AsyncTokenBucket) × (bucket_key source_key after
        ≡ ok (if is_some (lookup source_key after.buckets) then source_key else "http", b))
bucket_key_total s now r calls source_key made =
    total source_key (perform_all calls r)
      (perform_all-HasHttp calls r (new_registry-HasHttp s now r made))

-- From settings whose fields pass their checks, the registry is built exactly if the rates of http
-- and of rabbitmq are positive and their bursts are at least 1, which the checks leave open.
pub new_registry-fields_valid :
    (s : Settings) (now : ℕ)
    → fields_valid s ≡ true
    → is_ok (new_registry s now) ≡ (
        ltb 0 s.rate_limit_http_per_second
        && leb 1 s.rate_limit_http_burst
        && ltb 0 s.rate_limit_rabbitmq_per_second
        && leb 1 s.rate_limit_rabbitmq_burst)
unfolding new_registry fields_valid
new_registry-fields_valid s now valid = ground (arith, valid)
