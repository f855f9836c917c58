-- ===== src/Vnstock/Calls.antt =====
-- The exceptions that leave a call of the SDK.
use stock_tracker_data_colle.Base.{Bool, false, String, ◌≡◌, refl, true, ◌||◌, arith}
use stock_tracker_data_colle.Errors.{Exn, is_source_error, is_exception, is_system_exit}
use stock_tracker_data_colle.Exec.{Outcome, ok, raised, Exec}
use stock_tracker_data_colle.Frames.{Pandas}
use stock_tracker_data_colle.Vnstock.{Sdk, call, run_in_thread}

-- The exception that leaves the source, by the one of the SDK and whether the source turns it into a
-- SourceError.
abbrev pub Leaves : Bool → Exn → Exn → Type 0
Leaves true e e' = is_source_error e' ≡ true
Leaves false e e' = e' ≡ e

-- What leaves the source, by what the SDK did.
abbrev pub Answers : {A : Type 0} → Outcome A → Outcome A → Type 0
Answers (ok a) got = got ≡ ok a
Answers (raised e) (ok a) = ⊥
Answers (raised e) (raised e') = Leaves (is_exception e || is_system_exit e) e e'

module _ {pd : Pandas} {W : Type 0} (sdk : Sdk pd W) where
  -- When the limiter grants the call, the source makes it: the value of the SDK leaves it as it is, an
  -- Exception or a SystemExit of the SDK leaves it as a SourceError, and any other exception as it is.
  -- The state is the one that the SDK left.
  pub call-Answers :
      {A : Type 0} (operation : String) (func : Exec W A) (w granted last : W) (r : Outcome A)
      → sdk.acquire "vnstock" w ≡ (ok tt, granted)
      → func granted ≡ (r, last)
      → Answers r (call sdk operation func w).0 × ((call sdk operation func w).1 ≡ last)
  unfolding call run_in_thread
  call-Answers operation func w granted last (ok a) grants returns =
      rw (grants, returns) (refl, refl)
  call-Answers operation func w granted last (raised e) grants raises =
      rw (grants, raises) (ground arith)

  -- A call that is granted and returns.
  pub call-ok :
      {A : Type 0} (operation : String) (func : Exec W A) (w granted last : W) (a : A)
      → sdk.acquire "vnstock" w ≡ (ok tt, granted)
      → func granted ≡ (ok a, last)
      → call sdk operation func w ≡ (ok a, last)
  unfolding call run_in_thread
  call-ok operation func w granted last a grants returns = rw (grants, returns) refl
