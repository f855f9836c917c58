-- ===== src/Exec.antt =====
-- Methods that mutate state and may raise. What was written before a raise stays written, so the
-- state comes back beside the exception too.
pub mod Fallible
use mathlib.Core.Bool.{Bool, true, false}
use mathlib.Core.Path.{◌≡◌, refl}
use mathlib.Core.Logic.{◌⊎◌, inl, inr}
use stock_tracker_data_colle.Errors.{Exn}

pub data Outcome {ℓ} (A : Type ℓ) : Type ℓ where
  ok : A → Outcome A
  raised : Exn → Outcome A

abbrev pub Exec {ℓ κ} : Type ℓ → Type κ → Type (ℓ ⊔ κ)
Exec S A = S → Outcome A × S

module _ {ℓ} {S : Type ℓ} where
  abbrev pub modify : (S → S) → Exec S (Unit {0})
  modify f s = (ok tt, f s)

module _ {ℓ κ} {S : Type ℓ} {A : Type κ} where
  abbrev pub pure : A → Exec S A
  pure a s = (ok a, s)

  abbrev pub raise : Exn → Exec S A
  raise e s = (raised e, s)

  abbrev pub lift : Outcome A → Exec S A
  lift r s = (r, s)

  abbrev pub gets : (S → A) → Exec S A
  gets f s = (ok (f s), s)

  -- `try: body` / `finally: cleanup`: an exception of the cleanup replaces the outcome.
  abbrev pub after_cleanup : Outcome A → Outcome (Unit {0}) × S → Outcome A × S
  after_cleanup r (ok _, s) = (r, s)
  after_cleanup r (raised e, s) = (raised e, s)

  abbrev pub try_finally : Exec S A → Exec S (Unit {0}) → Exec S A
  try_finally body cleanup s = let (r, s') = body s in after_cleanup r (cleanup s')

  -- `try: body` / `except …: handler`, where the handler says what it re-raises.
  abbrev pub handled : (Exn → Exec S A) → Outcome A → Exec S A
  handled handler (ok a) s = (ok a, s)
  handled handler (raised e) s = handler e s

  abbrev pub try_except : Exec S A → (Exn → Exec S A) → Exec S A
  try_except body handler s = let (r, s') = body s in handled handler r s'

module _ {ℓ κ μ} {S : Type ℓ} {A : Type κ} {B : Type μ} where
  abbrev pub continue : Outcome A → (A → Exec S B) → Exec S B
  continue (ok value) rest s = rest value s
  continue (raised error) rest s = (raised error, s)

  infixl 5 ◌>>=◌
  abbrev pub ◌>>=◌ : Exec S A → (A → Exec S B) → Exec S B
  ◌>>=◌ action rest s = let (outcome, after) = action s in continue outcome rest after

module _ {ℓ μ} {S : Type ℓ} {B : Type μ} where
  infixl 5 ◌>>◌
  abbrev pub ◌>>◌ : Exec S (Unit {0}) → Exec S B → Exec S B
  m >> n = m >>= λ _. n

module _ {ℓ μ} {S : Type ℓ} {B : Type μ} where
  -- A chain reads the action behind it only at the state that its first action leaves on return.
  pub then-same :
      (m : Exec S (Unit {0})) (n n' : Exec S B) (s : S)
      → ((s' : S) → m s ≡ (ok tt, s') → n s' ≡ n' s')
      → (m >> n) s ≡ (m >> n') s
  then-same m n n' s agree = reached (m s) agree
    where
      reached :
          (r : Outcome (Unit {0}) × S)
          → ((s' : S) → r ≡ (ok tt, s') → n s' ≡ n' s')
          → continue r.0 (λ _. n) r.1 ≡ continue r.0 (λ _. n') r.1
      reached (ok tt, s') agree = agree s' refl
      reached (raised e, s') agree = refl

  pub then_assoc :
      (l m : Exec S (Unit {0})) (n : Exec S B) (s : S) → ((l >> m) >> n) s ≡ (l >> (m >> n)) s
  then_assoc l m n s = associated (l s)
    where
      associated :
          (r : Outcome (Unit {0}) × S)
          → (let (o, s') = continue r.0 (λ _. m) r.1 in continue o (λ _. n) s')
            ≡ continue r.0 (λ _. m >> n) r.1
      associated (ok _, s') = refl
      associated (raised e, s') = refl

-- An action on a part of the state: `get` reads the part, `put` writes it back.
module _ {ℓ κ μ} {S : Type ℓ} {T : Type κ} {A : Type μ} where
  abbrev pub zoom : (S → T) → (T → S → S) → Exec T A → Exec S A
  zoom get put m s = let (r, t) = m (get s) in (r, put t s)

abbrev pub is_ok {ℓ} : {A : Type ℓ} → Outcome A → Bool
is_ok (ok a) = true
is_ok (raised e) = false

-- A predicate on the exception, if one was raised, or on the value.
abbrev pub Returns {ℓ κ} : {A : Type ℓ} → (A → Type κ) → Outcome A → Type κ
Returns P (ok a) = P a
Returns P (raised e) = Unit

module _ {ℓ κ μ} {S : Type ℓ} {A : Type κ} {B : Type μ} where
  passed :
      (k : A → Exec S B) (last : S) (b : B) (reached : Outcome A × S)
      → (let (outcome, after) = reached in continue outcome k after) ≡ (ok b, last)
      → (a : A) × (s' : S) × (reached ≡ (ok a, s')) × (k a s' ≡ (ok b, last))
  passed k last b (ok a, s') done = (a, s', refl, done)
  passed k last b (raised e, s') done = cc

  -- A chain of actions that returns has passed through its first action.
  pub chain-ok :
      (m : Exec S A) (k : A → Exec S B) (s last : S) (b : B)
      → (m >>= k) s ≡ (ok b, last)
      → (a : A) × (s' : S) × (m s ≡ (ok a, s')) × (k a s' ≡ (ok b, last))
  chain-ok m k s last b done = passed k last b (m s) done

pub ok-ne-raised {ℓ} : {A : Type ℓ} {a : A} {e : Exn} → ok a ≡ raised e → ⊥
ok-ne-raised p = cc

pub ok-cancel {ℓ} : {A : Type ℓ} {a b : A} → ok a ≡ ok b → a ≡ b
ok-cancel p = cc

-- To split on an outcome and keep the equation.
pub Outcome-cases {ℓ} :
    {A : Type ℓ} (r : Outcome A) → ((a : A) × (r ≡ ok a)) ⊎ ((e : Exn) × (r ≡ raised e))
Outcome-cases (ok a) = inl (a, refl)
Outcome-cases (raised e) = inr (e, refl)

-- What holds of every value that may be returned.
pub Returns-cases {ℓ κ} :
    {A : Type ℓ} (P : A → Type κ) (r : Outcome A) → ((a : A) → r ≡ ok a → P a) → Returns P r
Returns-cases P (ok a) each = each a refl
Returns-cases P (raised e) each = tt

-- What holds of every value that an action may return, wherever it starts.
abbrev pub Always {ℓ κ μ} : {S : Type ℓ} {A : Type κ} → (A → Type μ) → Exec S A → Type (ℓ ⊔ μ)
Always P action = (s : _) → Returns P (action s).0

module _ {ℓ κ μ ν o} {S : Type ℓ} {A : Type κ} {B : Type μ} (Q : A → Type o) (P : B → Type ν) where
  later :
      (k : A → Exec S B)
      → ((a : A) → Q a → Always P (k a))
      → (r : Outcome A) (s : S) → Returns Q r
      → Returns P (continue r k s).0
  later k each (ok a) s h = each a h s
  later k each (raised e) s h = tt

  -- What holds of the value of the first action serves the rest of the chain.
  pub Always-pass :
      (m : Exec S A) (k : A → Exec S B)
      → Always Q m
      → ((a : A) → Q a → Always P (k a))
      → Always P (m >>= k)
  Always-pass m k first each s = later k each (m s).0 (m s).1 (first s)

Returns-any {ℓ} : {A : Type ℓ} (r : Outcome A) → Returns (λ _. Unit {0}) r
Returns-any (ok a) = tt
Returns-any (raised e) = tt

module _ {ℓ κ μ ν} {S : Type ℓ} {A : Type κ} {B : Type μ} (P : B → Type ν) where
  pub Always-bind :
      (m : Exec S A) (k : A → Exec S B) → ((a : A) → Always P (k a)) → Always P (m >>= k)
  Always-bind m k each =
      Always-pass (λ _. Unit {0}) P m k (λ s. Returns-any (m s).0) (λ a h. each a)
