-- ===== src/Tests/RateLimit.antt =====
-- The theorems on the rate limiter, at a bucket of five tokens and two tokens a second.
use stock_tracker_data_colle.Base.{
  ℕ, ◌+◌, ◌/◌, ◌*◌, ◌≤◌, ◌≡◌, refl, none, some, [], ◌∷◌, arith, false,
}
use stock_tracker_data_colle.Exec.{is_ok}
use stock_tracker_data_colle.Config.{default_settings, Settings, fields_valid}
use stock_tracker_data_colle.RateLimit.{
  AsyncTokenBucket, RateLimiterRegistry, acquire, new_registry,
}
use stock_tracker_data_colle.RateLimit.Bucket.{
  IsBucket, granted_total, granted_total-le, acquire_served, acquire_never,
}
use stock_tracker_data_colle.RateLimit.Registry.{new_registry-fields_valid}

abbrev bucket : AsyncTokenBucket
bucket = record { rate = 2_000; burst = 5_000_000; tokens = 1_000_000; last_ts = 100 }

bucket-IsBucket : IsBucket bucket
bucket-IsBucket = record { positive = omega arith; within = omega arith }

granted_total-le_example :
    granted_total ((0, 1_000_000) ∷ (10, 1_000_000) ∷ (500, 1_000_000) ∷ []) 100 bucket
    ≤ 1_000_000 + 510 * 2_000
granted_total-le_example =
    granted_total-le ((0, 1_000_000) ∷ (10, 1_000_000) ∷ (500, 1_000_000) ∷ []) 100 bucket refl

-- A sleep that rounds down, and takes a tick at least.
abbrev slept : ℕ → ℕ → ℕ → ℕ
slept now deficit rate = 1 + deficit / rate

acquire_served_example :
    (t : ℕ) × (b : AsyncTokenBucket) × (acquire slept 1_000_001 2_000_000 100 bucket ≡ some (t, b))
    × (100 ≤ t)
    × IsBucket b
acquire_served_example =
    acquire_served slept (λ now deficit rate. omega arith) 1_000_000 2_000_000 100 bucket
      bucket-IsBucket (omega arith) (omega arith)

acquire_never_example : acquire slept 50 6_000_000 100 bucket ≡ none
acquire_never_example = acquire_never slept 50 6_000_000 100 bucket bucket-IsBucket (omega arith)

abbrev full : ℕ → ℕ → AsyncTokenBucket
full rate burst = record { rate = rate; burst = burst; tokens = burst; last_ts = 0 }

abbrev default_registry : RateLimiterRegistry
default_registry = record {
  buckets =
      ("vnstock", full 250 1_000_000)
      ∷ ("http", full 10_000 20_000_000)
      ∷ ("rabbitmq", full 50_000 100_000_000)
      ∷ [];
}

abbrev without_http : Settings
without_http = record default_settings { rate_limit_http_per_second = 0 }

new_registry-fields_valid_example : is_ok (new_registry without_http 0) ≡ false
unfolding fields_valid
new_registry-fields_valid_example = new_registry-fields_valid without_http 0 refl
