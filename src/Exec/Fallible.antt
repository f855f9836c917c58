-- ===== src/Exec/Fallible.antt =====
-- Functions without state that may raise, and loops of them that stop at the first exception.
use stock_tracker_data_colle.Base.{
  Bool, ◌&&◌, every, ◌≡◌, refl, subst, Option, none, some, List, [], ◌∷◌, length, arith, inl, inr,
  ap, suc,
}
use stock_tracker_data_colle.Exec.{Outcome, ok, raised, Outcome-cases, is_ok}

module _ {ℓ κ} {A : Type ℓ} {B : Type κ} where
  infixl 5 ◌>>=◌
  abbrev pub ◌>>=◌ : Outcome A → (A → Outcome B) → Outcome B
  ok value >>= rest = rest value
  raised error >>= rest = raised error

  -- for x in xs: results.append(f(x))
  abbrev pub for_each : (A → Outcome B) → List A → Outcome (List B)
  for_each f [] = ok []
  for_each f (x ∷ xs) =
      let rest = for_each f xs in
      elim (f x) [
        | raised e ↦ raised e
        | ok y ↦ elim rest [ raised e ↦ raised e | ok ys ↦ ok (y ∷ ys) ]
      ]

  -- The loop returns exactly if its body returns for every element.
  pub for_each-every :
      (f : A → Outcome B) (xs : List A) → is_ok (for_each f xs) ≡ every (λ x. is_ok (f x)) xs
  for_each-every f [] = refl
  for_each-every f (x ∷ xs) = elim (Outcome-cases (f x)) [
    | inr (e, fx) ↦ ground (arith, fx)
    | inl (y, fx) ↦ elim (Outcome-cases (for_each f xs)) [
      | inr (e, rest) ↦ ground (arith, fx, rest, for_each-every f xs)
      | inl (ys, rest) ↦ ground (arith, fx, rest, for_each-every f xs)
    ]
  ]

  -- The same loop, where a body may `continue` without a result.
  abbrev pub for_some : (A → Outcome (Option B)) → List A → Outcome (List B)
  for_some f [] = ok []
  for_some f (x ∷ xs) =
      let rest = for_some f xs in
      elim (f x) [
        | raised e ↦ raised e
        | ok none ↦ rest
        | ok (some y) ↦ elim rest [ raised e ↦ raised e | ok ys ↦ ok (y ∷ ys) ]
      ]

module _ {ℓ κ} {A : Type ℓ} {B : Type κ} where
  -- A chain that returns has passed through its first action.
  pub bind-ok :
      (m : Outcome A) (k : A → Outcome B) (b : B)
      → m >>= k ≡ ok b
      → (a : A) × (m ≡ ok a) × (k a ≡ ok b)
  bind-ok (ok a) k b done = (a, refl, done)
  bind-ok (raised e) k b done = cc

  -- A chain whose rest returns in the same case for every value.
  pub bind-is_ok :
      (m : Outcome A) (k : A → Outcome B) (b : Bool)
      → ((a : A) → is_ok (k a) ≡ b)
      → is_ok (m >>= k) ≡ (is_ok m && b)
  bind-is_ok (ok a) k b each = each a
  bind-is_ok (raised e) k b each = refl

-- The results of the elements, one for each, in their order.
module _ {A B : Type 0} where
  abbrev pub Pairs : (A → B → Type 0) → List A → List B → Type 0
  Pairs related [] [] = Unit
  Pairs related [] (y ∷ ys) = ⊥
  Pairs related (x ∷ xs) [] = ⊥
  Pairs related (x ∷ xs) (y ∷ ys) = related x y × Pairs related xs ys

  -- What holds of an element and its result holds of all of them.
  pub for_each-Pairs :
      (P : A → B → Type 0) (f : A → Outcome B)
      → ((x : A) (y : B) → f x ≡ ok y → P x y)
      → (xs : List A) (ys : List B) → for_each f xs ≡ ok ys
      → Pairs P xs ys
  for_each-Pairs P f each [] [] done = tt
  for_each-Pairs P f each [] (y ∷ ys) done = absurd (ground (arith, done))
  for_each-Pairs P f each (x ∷ xs) ys done = elim (Outcome-cases (f x)) [
    | inr (e, fx) ↦ absurd (ground (arith, done, fx))
    | inl (y, fx) ↦ elim (Outcome-cases (for_each f xs)) [
      | inr (e, rest) ↦ absurd (ground (arith, done, fx, rest))
      | inl (ys', rest) ↦
          let e : y ∷ ys' ≡ ys = ground (arith, done, fx, rest) in
          subst (λ l. Pairs P (x ∷ xs) l) e (each x y fx, for_each-Pairs P f each xs ys' rest)
    ]
  ]

  pub Pairs-length :
      (P : A → B → Type 0) (xs : List A) (ys : List B) → Pairs P xs ys → length ys ≡ length xs
  Pairs-length P [] [] p = refl
  Pairs-length P [] (y ∷ ys) p = absurd p
  Pairs-length P (x ∷ xs) [] p = absurd p
  Pairs-length P (x ∷ xs) (y ∷ ys) (p, ps) = ap suc (Pairs-length P xs ys ps)
