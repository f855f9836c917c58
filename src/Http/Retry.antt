-- ===== src/Http/Retry.antt =====
-- What the retried calls come to.
use stock_tracker_data_colle.Base.{ℕ, zero, suc, ◌≤◌, ◌≡◌, ◌⊎◌, true, false}
use stock_tracker_data_colle.Exec.{Exec}
use stock_tracker_data_colle.Http.{is_retried, attempts}

module _ {S : Type 0} {A : Type 0} (call : Exec S A) where
  -- The state after `n` calls.
  abbrev pub after_calls : ℕ → S → S
  after_calls zero s = s
  after_calls (suc n) s = after_calls n (call s).1

  -- The first `n` calls are all retried.
  abbrev pub AllRetried : ℕ → S → Type 0
  AllRetried zero s = Unit
  AllRetried (suc n) s = (is_retried (call s).0 ≡ true) × AllRetried n (call s).1

  abbrev pub Ends : ℕ → S → Type 0
  Ends more s =
      (n : ℕ) × (n ≤ more)
      × AllRetried n s
      × (attempts more call s ≡ call (after_calls n s))
      × ((n ≡ more) ⊎ (is_retried (call (after_calls n s)).0 ≡ false))
