-- ===== src/RateLimit.antt =====
-- app/core/rate_limiter.py. A token is `token_unit` units, and a clock tick is a millisecond, so
-- that a rate is a number of units for each tick and the arithmetic is exact. How long a task sleeps for
-- what is missing, after the float division and on the event loop, is a parameter.
pub mod Bucket
pub mod Registry
use stock_tracker_data_colle.Base.{
  ℕ, zero, suc, ◌+◌, ◌-◌, ◌*◌, ◌/◌, min, String, Bool, true, false, Option, none, some, List, [],
  ◌∷◌, ltb, leb, eqb, if◌then◌else◌, lookup, insert,
}
use stock_tracker_data_colle.Errors.{Exn, value_error, key_error}
use stock_tracker_data_colle.Exec.{Outcome, ok, raised}
use stock_tracker_data_colle.Config.{Settings}

abbrev pub token_unit : ℕ
token_unit = 1_000_000

pub record AsyncTokenBucket : Type 0 where
  pub rate : ℕ
  pub burst : ℕ
  pub tokens : ℕ
  pub last_ts : ℕ

-- __init__, at the time `now`
unfoldable pub new_bucket : ℕ → ℕ → ℕ → Outcome AsyncTokenBucket
new_bucket rate_per_second burst now =
    if leb rate_per_second 0
    then raised (value_error "rate_per_second must be positive")
    else if ltb burst 1
    then raised (value_error "burst must be at least 1")
    else ok (record {
      rate = rate_per_second;
      burst = burst * token_unit;
      tokens = burst * token_unit;
      last_ts = now;
    })

-- One round of the loop of `acquire` under the lock: the tokens are taken, or some are missing.
pub data Round : Type 0 where
  granted : AsyncTokenBucket → Round
  wait_for : ℕ → AsyncTokenBucket → Round

abbrev pub bucket_of : Round → AsyncTokenBucket
bucket_of (granted b) = b
bucket_of (wait_for deficit b) = b

abbrev pub is_granted : Round → Bool
is_granted (granted b) = true
is_granted (wait_for deficit b) = false

abbrev pub refill : ℕ → AsyncTokenBucket → AsyncTokenBucket
refill now b = record b {
  tokens = min b.burst (b.tokens + (now - b.last_ts) * b.rate);
  last_ts = now;
}

unfoldable pub acquire_round : ℕ → ℕ → AsyncTokenBucket → Round
acquire_round tokens now b =
    let filled : AsyncTokenBucket = refill now b in
    if leb tokens filled.tokens
    then granted (record filled { tokens = filled.tokens - tokens })
    else wait_for (tokens - filled.tokens) filled

-- The loop of `acquire` of a task that is alone, on fuel; `slept now deficit rate` is the number of
-- ticks that pass in asyncio.sleep(deficit / rate). `none` means that the fuel ran out; else the time
-- of the grant comes back.
module _ (slept : ℕ → ℕ → ℕ → ℕ) where
  unfoldable pub acquire : ℕ → ℕ → ℕ → AsyncTokenBucket → Option (ℕ × AsyncTokenBucket)
  unfolding acquire_round
  acquire zero tokens now b = none
  acquire (suc fuel) tokens now b = elim (acquire_round tokens now b) [
    | granted b' ↦ some (now, b')
    | wait_for deficit b' ↦ acquire fuel tokens (now + slept now deficit b'.rate) b'
  ]

pub record RateLimiterRegistry : Type 0 where
  pub buckets : List (String × AsyncTokenBucket)

-- the dict of the three buckets; the first that cannot be built raises
abbrev build :
    Outcome AsyncTokenBucket
    → Outcome AsyncTokenBucket
    → Outcome AsyncTokenBucket
    → Outcome RateLimiterRegistry
build (raised e) http rabbitmq = raised e
build (ok vnstock) (raised e) rabbitmq = raised e
build (ok vnstock) (ok http) (raised e) = raised e
build (ok vnstock) (ok http) (ok rabbitmq) =
    ok (record { buckets = ("vnstock", vnstock) ∷ ("http", http) ∷ ("rabbitmq", rabbitmq) ∷ [] })

-- __init__
unfoldable pub new_registry : Settings → ℕ → Outcome RateLimiterRegistry
unfolding new_bucket
new_registry s now =
    build (new_bucket s.rate_limit_vnstock_per_second s.rate_limit_vnstock_burst now)
      (new_bucket s.rate_limit_http_per_second s.rate_limit_http_burst now)
      (new_bucket s.rate_limit_rabbitmq_per_second s.rate_limit_rabbitmq_burst now)

-- register
unfoldable pub register : String → ℕ → ℕ → ℕ → RateLimiterRegistry → Outcome RateLimiterRegistry
unfolding new_bucket
register key rate_per_second burst now r = elim (new_bucket rate_per_second burst now) [
  | ok b ↦ ok (record { buckets = insert key b r.buckets })
  | raised e ↦ raised e
]

-- The key of the bucket that `acquire` of the registry draws from: an unknown source draws from
-- `http`, and `self._buckets["http"]` raises KeyError if that is missing.
unfoldable pub bucket_key : String → RateLimiterRegistry → Outcome (String × AsyncTokenBucket)
bucket_key source_key r = elim (lookup source_key r.buckets) [
  | some b ↦ ok (source_key, b)
  | none ↦ elim (lookup "http" r.buckets) [
    | some b ↦ ok ("http", b)
    | none ↦ raised (key_error "http")
  ]
]

-- One round of `acquire` of the registry, and whether it granted the tokens.
unfoldable pub registry_round :
    String → ℕ → ℕ → RateLimiterRegistry → Outcome (Bool × RateLimiterRegistry)
unfolding bucket_key acquire_round
registry_round source_key tokens now r = elim (bucket_key source_key r) [
  | raised e ↦ raised e
  | ok (key, b) ↦ ok (
    is_granted (acquire_round tokens now b),
    record { buckets = insert key (bucket_of (acquire_round tokens now b)) r.buckets },
  )
]
