-- ===== src/Pipelines/Chunks.antt =====
-- The messages that a list of records is cut into.
use stock_tracker_data_colle.Base.{
  ℕ, zero, suc, ◌+◌, ◌≤◌, ◌≡◌, refl, List, [], ◌∷◌, ◌++◌, map, arith, ltb, length, take, drop, All,
  length-take, length-drop, take-append-drop, sym, ap, ◌∙◌, Bool-cases, inl, inr,
}
use stock_tracker_data_colle.Pipelines.MarketData.{range, chunks}

abbrev pub concat {ℓ} : {A : Type ℓ} → List (List A) → List A
concat [] = []
concat (xs ∷ xss) = xs ++ concat xss

module _ {ℓ} {A : Type ℓ} where
  drop-nil : (n : ℕ) → drop {A = A} n [] ≡ []
  drop-nil zero = refl
  drop-nil (suc n) = refl

  pub drop-add : (n m : ℕ) (xs : List A) → drop n (drop m xs) ≡ drop (m + n) xs
  drop-add n zero xs = ground arith
  drop-add n (suc m) [] = drop-nil n ∙ sym (drop-nil (suc m + n))
  drop-add n (suc m) (x ∷ xs) =
      let e : suc (m + n) ≡ suc m + n = omega arith in drop-add n m xs ∙ ap (λ k. drop k (x ∷ xs)) e

  drop-all : (n : ℕ) (xs : List A) → length xs ≤ n → drop n xs ≡ []
  drop-all zero [] h = refl
  drop-all zero (x ∷ xs) h = absurd (omega arith)
  drop-all (suc n) [] h = refl
  drop-all (suc n) (x ∷ xs) h = drop-all n xs (omega arith)

  -- The slices from `i` on give back what is left from `i` on.
  concat-range :
      (items : List A) (size : ℕ)
      → 1 ≤ size
      → (fuel i : ℕ) → length items ≤ i + fuel
      → concat (map (λ k. take size (drop k items)) (range fuel i (length items) size))
        ≡ drop i items
  concat-range items size pos zero i h = sym (drop-all i items (omega arith))
  concat-range items size pos (suc fuel) i h = elim (Bool-cases (ltb i (length items))) [
    | inl inside ↦ rw inside (
        ap (λ rest. take size (drop i items) ++ rest)
          (concat-range items size pos fuel (i + size) (omega arith) ∙ sym (drop-add size i items))
        ∙ take-append-drop size (drop i items))
    | inr outside ↦ rw outside (sym (drop-all i items (ground arith)))
  ]

  -- The bounds of a chunk.
  abbrev pub IsChunk : ℕ → List A → Type 0
  IsChunk size chunk = (1 ≤ length chunk) × (length chunk ≤ size)

  All-range :
      (items : List A) (size : ℕ)
      → 1 ≤ size
      → (fuel i : ℕ)
      → All (IsChunk size) (map (λ k. take size (drop k items)) (range fuel i (length items) size))
  All-range items size pos zero i = tt
  All-range items size pos (suc fuel) i = ground (
    arith,
    All-range items size pos fuel (i + size),
    length-take size (drop i items),
    length-drop i items,
  )

  -- For a positive size, the chunks joined are the records in their order, and no chunk is empty or
  -- longer than the size.
  pub concat-chunks :
      (items : List A) (size : ℕ)
      → 1 ≤ size
      → (concat (chunks items size) ≡ items) × All (IsChunk size) (chunks items size)
  unfolding chunks
  concat-chunks items size pos = (
    concat-range items size pos (length items) 0 (omega arith),
    All-range items size pos (length items) 0,
  )

-- Lists that are wrapped one by one.
module _ {A P : Type 0} (wrap : List A → P) (unwrap : P → List A)
    (back : (xs : List A) → unwrap (wrap xs) ≡ xs) where
  pub concat-unwrap : (xss : List (List A)) → concat (map unwrap (map wrap xss)) ≡ concat xss
  concat-unwrap [] = refl
  concat-unwrap (xs ∷ xss) = ground (arith, back xs, concat-unwrap xss)
