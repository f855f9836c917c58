-- ===== src/Metrics/Sorted.antt =====
-- Dictionaries of counts, sorted by their keys, and the counts that they hold.
use stock_tracker_data_colle.Base.{
  ℕ, ◌+◌, ◌≡◌, ◌↔◌, refl, sym, ap, subst, ◌∙◌, Bool, true, false, Option, none, some, List, [], ◌∷◌,
  arith, All, if◌then◌else◌, inl, inr, Bool-cases,
}
use stock_tracker_data_colle.Metrics.{add_at}
use stock_tracker_data_colle.Metrics.Render.{place, sorted}

module _ {K : Type 0} (same : K → K → Bool)
    (same_iff : (k j : K) → (same k j ≡ true) ↔ (k ≡ j)) where
  abbrev pub find : K → List (K × ℕ) → Option ℕ
  find k [] = none
  find k ((j, n) ∷ m) = if same j k then some n else find k m

  -- No key twice.
  abbrev pub Distinct : List (K × ℕ) → Type 0
  Distinct [] = Unit
  Distinct ((k, n) ∷ m) = (find k m ≡ none) × Distinct m

  pub find-add_at :
      (k k' : K) (n : ℕ) (m : List (K × ℕ))
      → find k' (add_at same k n m)
        ≡ (if same k k' then some (n + elim (find k' m) [ none ↦ 0 | some x ↦ x ]) else find k' m)
  find-add_at k k' n [] = ground arith
  find-add_at k k' n ((j, x) ∷ m) =
      ground (arith, find-add_at k k' n m, same_iff j k, same_iff j k', same_iff k k')

  pub Distinct-add_at :
      (k : K) (n : ℕ) (m : List (K × ℕ)) → Distinct m → Distinct (add_at same k n m)
  Distinct-add_at k n [] d = (refl, tt)
  Distinct-add_at k n ((j, x) ∷ m) d =
      ground (arith, Distinct-add_at k n m, find-add_at k j n m, same_iff j k, same_iff k j)

  module _ (before : K → K → Bool) (irrefl : (k : K) → before k k ≡ false)
      (transitive : (k j i : K) → before k j ≡ true → before j i ≡ true → before k i ≡ true)
      (total : (k j : K) → before k j ≡ false → before j k ≡ false → k ≡ j) where
    abbrev Above : K → List (K × ℕ) → Type 0
    Above k = All (λ e. before k e.0 ≡ true)

    abbrev Strict : List (K × ℕ) → Type 0
    Strict [] = Unit
    Strict ((k, n) ∷ m) = Above k m × Strict m

    Above-find : (k : K) (m : List (K × ℕ)) → Above k m → find k m ≡ none
    Above-find k [] h = refl
    Above-find k ((j, n) ∷ m) h = ground (arith, Above-find k m, irrefl k, same_iff j k)

    Above-below : (k j : K) (m : List (K × ℕ)) → before k j ≡ true → Above j m → Above k m
    Above-below k j [] b h = tt
    Above-below k j ((i, n) ∷ m) b (h, hs) = (transitive k j i b h, Above-below k j m b hs)

    Above-place :
        (k j : K) (n : ℕ) (m : List (K × ℕ))
        → before k j ≡ true
        → Above k m
        → Above k (place before (j, n) m)
    Above-place k j n [] b h = (b, tt)
    Above-place k j n ((i, x) ∷ m) b (h, hs) = elim (Bool-cases (before j i)) [
      | inl first ↦ rw first (b, (h, hs))
      | inr later ↦ rw later (h, Above-place k j n m b hs)
    ]

    Strict-place :
        (k : K) (n : ℕ) (m : List (K × ℕ))
        → find k m ≡ none
        → Strict m
        → Strict (place before (k, n) m)
    Strict-place k n [] new s = (tt, tt)
    Strict-place k n ((j, x) ∷ m) new (above, s) = elim (Bool-cases (before k j)) [
      | inl first ↦ rw first ((first, Above-below k j m first above), (above, s))
      | inr later ↦ elim (Bool-cases (before j k)) [
        | inl next ↦
            rw later (Above-place j k n m next above, Strict-place k n m (ground (arith, new)) s)
        | inr equal ↦
            let e : k ≡ j = total k j later equal in
            absurd (ground (arith, new, (same_iff j k).1 (sym e)))
      ]
    ]

    find-place :
        (k k' : K) (n : ℕ) (m : List (K × ℕ))
        → find k m ≡ none
        → find k' (place before (k, n) m) ≡ (if same k k' then some n else find k' m)
    find-place k k' n [] new = refl
    find-place k k' n ((j, x) ∷ m) new =
        ground (arith, find-place k k' n m, same_iff j k, same_iff j k', same_iff k k')

    find-sorted : (k : K) (m : List (K × ℕ)) → Distinct m → find k (sorted before m) ≡ find k m
    unfolding sorted
    find-sorted k [] d = refl
    find-sorted k ((j, n) ∷ m) (new, d) =
        find-place j k n (sorted before m) (find-sorted j m d ∙ new)
        ∙ ap (λ o. if same j k then some n else o) (find-sorted k m d)

    Strict-sorted : (m : List (K × ℕ)) → Distinct m → Strict (sorted before m)
    unfolding sorted
    Strict-sorted [] d = tt
    Strict-sorted ((j, n) ∷ m) (new, d) =
        Strict-place j n (sorted before m) (find-sorted j m d ∙ new) (Strict-sorted m d)

    -- A key below all of a list is not found there.
    below :
        (k j : K) (n m : ℕ) (xs ys : List (K × ℕ))
        → Above j ys
        → find k ((k, n) ∷ xs) ≡ find k ((j, m) ∷ ys)
        → before k j ≡ false
    below k j n m xs ys above e = elim (Bool-cases (before k j)) [
      | inr other ↦ other
      | inl less ↦
          let absent = Above-find k ((j, m) ∷ ys) (less, Above-below k j ys less above) in
          let present : find k ((k, n) ∷ xs) ≡ some n = ground (arith, same_iff k k) in
          absurd (absurd_some n (sym present ∙ e ∙ absent))
    ]
      where
        absurd_some : (n : ℕ) → some n ≡ none → ⊥
        absurd_some n p = cc

    tails :
        (k : K) (n m : ℕ) (xs ys : List (K × ℕ))
        → Above k xs
        → Above k ys
        → ((i : K) → find i ((k, n) ∷ xs) ≡ find i ((k, m) ∷ ys))
        → (i : K) → find i xs ≡ find i ys
    tails k n m xs ys above above' e i =
        ground (arith, e i, same_iff k i, Above-find k xs above, Above-find k ys above')

    -- Two sorted lists that find the same are the same.
    Strict-ext :
        (xs ys : List (K × ℕ)) → Strict xs → Strict ys → ((k : K) → find k xs ≡ find k ys) → xs ≡ ys
    Strict-ext [] [] s t e = refl
    Strict-ext [] ((j, m) ∷ ys) s t e = absurd (ground (arith, e j, same_iff j j))
    Strict-ext ((k, n) ∷ xs) [] s t e = absurd (ground (arith, e k, same_iff k k))
    Strict-ext ((k, n) ∷ xs) ((j, m) ∷ ys) (above, s) (above', t) e =
        let same_key : k ≡ j =
          total k j (below k j n m xs ys above' (e k)) (below j k m n ys xs above (sym (e j))) in
        let above_k : Above k ys = subst (λ i. Above i ys) (sym same_key) above' in
        let e_k : (i : K) → find i ((k, n) ∷ xs) ≡ find i ((k, m) ∷ ys) =
          subst (λ h. (i : K) → find i ((k, n) ∷ xs) ≡ find i ((h, m) ∷ ys)) (sym same_key) e in
        let same_count : n ≡ m = ground (arith, e_k k, same_iff k k) in
        let rest = Strict-ext xs ys s t (tails k n m xs ys above above_k e_k) in cc

    -- The sorted items are those of every dictionary with the same counts.
    pub sorted-find :
        (m m' : List (K × ℕ))
        → Distinct m
        → Distinct m'
        → ((k : K) → find k m ≡ find k m')
        → sorted before m ≡ sorted before m'
    sorted-find m m' d d' e =
        Strict-ext (sorted before m) (sorted before m') (Strict-sorted m d) (Strict-sorted m' d')
          λ k. find-sorted k m d ∙ e k ∙ sym (find-sorted k m' d')
