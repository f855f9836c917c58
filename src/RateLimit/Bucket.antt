-- ===== src/RateLimit/Bucket.antt =====
-- What a bucket grants: never more than its burst and its rate allow, and in time.
use stock_tracker_data_colle.Base.{
  ℕ, ◌+◌, ◌*◌, ◌≤◌, ◌<◌, ◌≡◌, ap, List, [], ◌∷◌, arith, zero, suc, ◌-◌, none, refl, some,
  Bool-cases, inl, inr, leb, false, true,
}
use stock_tracker_data_colle.RateLimit.{
  AsyncTokenBucket, Round, granted, wait_for, acquire_round, refill, acquire, bucket_of,
}

pub record IsBucket (b : AsyncTokenBucket) : Type 0 where
  pub positive : 0 < b.rate
  pub within : b.tokens ≤ b.burst

abbrev grant_of : ℕ → Round → ℕ
grant_of tokens (granted b) = tokens
grant_of tokens (wait_for w b) = 0

-- The tokens granted by attempts of any tasks in turn, from the time `now` on: of each attempt, the
-- ticks since the attempt before, and the tokens that it asks for.
pub granted_total : List (ℕ × ℕ) → ℕ → AsyncTokenBucket → ℕ
granted_total [] now b = 0
granted_total ((ticks, tokens) ∷ attempts) now b =
    let round = acquire_round tokens (now + ticks) b in
    grant_of tokens round + granted_total attempts (now + ticks) (bucket_of round)

abbrev pub total_ticks : List (ℕ × ℕ) → ℕ
total_ticks [] = 0
total_ticks ((ticks, tokens) ∷ attempts) = ticks + total_ticks attempts

round_budget :
    (tokens ticks now : ℕ) (b : AsyncTokenBucket)
    → b.last_ts ≡ now
    → let round = acquire_round tokens (now + ticks) b in
      (grant_of tokens round + (bucket_of round).tokens ≤ b.tokens + ticks * b.rate)
      × ((bucket_of round).rate ≡ b.rate)
      × ((bucket_of round).last_ts ≡ now + ticks)
unfolding acquire_round
round_budget tokens ticks now b last = ground arith

-- In any sequence of attempts from the bucket's last time on, the tokens granted are at most those
-- in the bucket at the start and what the rate adds in the time that passes.
pub granted_total-le :
    (attempts : List (ℕ × ℕ)) (now : ℕ) (b : AsyncTokenBucket)
    → b.last_ts ≡ now
    → granted_total attempts now b ≤ b.tokens + total_ticks attempts * b.rate
unfolding granted_total
granted_total-le [] now b last = omega arith
granted_total-le ((ticks, tokens) ∷ attempts) now b last =
    let round = acquire_round tokens (now + ticks) b in
    let (budget, rate, last') = round_budget tokens ticks now b last in
    grind (arith, granted_total-le attempts (now + ticks) (bucket_of round) last')

round-IsBucket :
    (tokens now : ℕ) (b : AsyncTokenBucket)
    → IsBucket b
    → IsBucket (bucket_of (acquire_round tokens now b))
unfolding acquire_round
round-IsBucket tokens now b v = ground arith

module _ (slept : ℕ → ℕ → ℕ → ℕ) where
  taken-IsBucket :
      (tokens : ℕ) (b : AsyncTokenBucket)
      → IsBucket b
      → IsBucket (record b { tokens = b.tokens - tokens })
  taken-IsBucket tokens b v = record { positive = v.positive; within = omega (arith, v.within) }

  refill-IsBucket : (now : ℕ) (b : AsyncTokenBucket) → IsBucket b → IsBucket (refill now b)
  refill-IsBucket now b v = record { positive = v.positive; within = omega arith }

  -- A tick, at least, fills in a unit of what is missing.
  refill-gain :
      (tokens now ticks missing : ℕ) (b : AsyncTokenBucket)
      → IsBucket b
      → tokens ≤ b.burst
      → 0 < ticks
      → let filled = refill now b in
        tokens ≤ filled.tokens + suc missing
        → tokens ≤ (refill (now + ticks) filled).tokens + missing
  refill-gain tokens now ticks missing b v fits passes near =
      let filled : AsyncTokenBucket = refill now b in
      let gained : 1 ≤ ticks * b.rate = grind (arith, passes, v.positive) in
      let elapsed : (now + ticks) - now ≡ ticks = omega arith in
      omega (arith, gained, fits, near, ap (λ n. n * b.rate) elapsed)

  abbrev Served : ℕ → ℕ → ℕ → AsyncTokenBucket → Type 0
  Served fuel tokens now b =
      (t : ℕ) × (b' : AsyncTokenBucket) × (acquire slept (suc fuel) tokens now b ≡ some (t, b'))
      × (now ≤ t)
      × IsBucket b'

  served_now :
      (fuel tokens now : ℕ) (b : AsyncTokenBucket)
      → IsBucket b
      → leb tokens (refill now b).tokens ≡ true
      → Served fuel tokens now b
  unfolding acquire
  served_now fuel tokens now b v enough = (
    now,
    record (refill now b) { tokens = (refill now b).tokens - tokens },
    ground (arith, enough),
    omega arith,
    taken-IsBucket tokens (refill now b) (refill-IsBucket now b v),
  )

  -- A bucket with a positive rate and no more tokens than its burst, and a task that is alone and asks
  -- for no more than the burst. However the division and the event loop round the time that the task
  -- sleeps, if the clock moves on by a tick at least in each sleep, then the task is served: a round for
  -- each unit that is missing at first, and one more, is enough fuel.
  pub acquire_served :
      (moves : (now deficit rate : ℕ) → 0 < slept now deficit rate) (fuel tokens now : ℕ)
      (b : AsyncTokenBucket)
      → IsBucket b
      → tokens ≤ b.burst
      → tokens ≤ (refill now b).tokens + fuel
      → (t : ℕ) × (b' : AsyncTokenBucket) × (acquire slept (suc fuel) tokens now b ≡ some (t, b'))
        × (now ≤ t)
        × IsBucket b'
  unfolding acquire
  acquire_served moves zero tokens now b v fits near =
      served_now zero tokens now b v (ground (arith, near))
  acquire_served moves (suc fuel) tokens now b v fits near =
      let filled : AsyncTokenBucket = refill now b in
      let ticks = slept now (tokens - filled.tokens) b.rate in
      elim (Bool-cases (leb tokens filled.tokens)) [
        | inl enough ↦ served_now (suc fuel) tokens now b v enough
        | inr short ↦
            let (t, b', served, after, v') =
              acquire_served moves fuel tokens (now + ticks) filled (refill-IsBucket now b v) fits (
                refill-gain tokens now ticks fuel b v fits
                  (moves now (tokens - filled.tokens) b.rate) near) in
            (t, b', ground (arith, short, served), omega (arith, after), v')
      ]

  -- On a bucket with a positive rate and no more tokens than its burst, a request for more than the
  -- burst is never served, however long the task waits and sleeps.
  pub acquire_never :
      (fuel tokens now : ℕ) (b : AsyncTokenBucket)
      → IsBucket b
      → b.burst < tokens
      → acquire slept fuel tokens now b ≡ none
  unfolding acquire
  acquire_never zero tokens now b v h = refl
  acquire_never (suc fuel) tokens now b v h =
      let filled : AsyncTokenBucket = refill now b in
      let short : leb tokens filled.tokens ≡ false = ground arith in
      ground (
        arith,
        short,
        acquire_never fuel tokens (now + slept now (tokens - filled.tokens) b.rate) filled
            (refill-IsBucket now b v) h,
      )
