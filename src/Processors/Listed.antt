-- ===== src/Processors/Listed.antt =====
-- The stocks that transform_stocks keeps of a listing.
use stock_tracker_data_colle.Base.{
  ℕ, ◌≤◌, String, ◌≡◌, refl, subst, Bool, true, false, Option, some, List, [], ◌∷◌, arith, inl, inr,
  Bool-cases, Option-cases, All, contains, select, eq_iff, if◌then◌else◌, ◌==◌,
}
use stock_tracker_data_colle.Base.Texts.{
  text_length, upper, prefix, strip, is_space, text_length-upper, text_length-prefix,
}
use stock_tracker_data_colle.Exec.{Outcome, ok, Outcome-cases, ok-cancel}
use stock_tracker_data_colle.Exec.Fallible.{for_some}
use stock_tracker_data_colle.Frames.{Pandas, Row, Frame, get, is_empty_frame}
use stock_tracker_data_colle.Schemas.{Stock}
use stock_tracker_data_colle.Processors.Cells.{str}
use stock_tracker_data_colle.Processors.Listing.{
  normalize_type, normalize_exchange, allowed_types, is_allowed, type_text, text_of, dropna,
  has_fields, stock_of, transform_stocks,
}

abbrev pub stock_types : List String
stock_types = "STOCK" ∷ "ETF" ∷ "FUND" ∷ []

normalize_type-stock_types :
    (s : String) → contains s allowed_types ≡ true → contains (normalize_type s) stock_types ≡ true
unfolding normalize_type upper strip is_space
normalize_type-stock_types s h = elim (Bool-cases ("STOCK" == s)) [
  | inl e ↦ holds "STOCK" e refl
  | inr no_stock ↦ elim (Bool-cases ("ETF" == s)) [
    | inl e ↦ holds "ETF" e refl
    | inr no_etf ↦ elim (Bool-cases ("UNIT_TRUST" == s)) [
      | inl e ↦ holds "UNIT_TRUST" e refl
      | inr no_trust ↦ holds "FUND" (ground (arith, h, no_stock, no_etf, no_trust)) refl
    ]
  ]
]
  where
    holds :
        (t : String)
        → (t == s) ≡ true
        → contains (normalize_type t) stock_types ≡ true
        → contains (normalize_type s) stock_types ≡ true
    holds t e p =
        let same : t ≡ s = ground (arith, e, eq_iff t s) in
        subst (λ u. contains (normalize_type u) stock_types ≡ true) same p

never_hose : (s : String) → ((if s == "HOSE" then "HSX" else s) == "HOSE") ≡ false
never_hose s = elim (Bool-cases (s == "HOSE")) [
  | inl same ↦ rw same refl
  | inr other ↦ rw other other
]

normalize_exchange-ne : (raw : String) → (normalize_exchange raw == "HOSE") ≡ false
unfolding normalize_exchange
normalize_exchange-ne raw = never_hose (upper (strip raw))

-- What holds of the result of every element that passes the test holds of all results, if all pass.
All-for_some :
    {A B : Type 0} (f : A → Outcome (Option B)) (test : A → Bool) (holds : B → Type 0)
    → ((x : A) (y : B) → test x ≡ true → f x ≡ ok (some y) → holds y)
    → (xs : List A) (ys : List B) → All (λ x. test x ≡ true) xs
    → for_some f xs ≡ ok ys
    → All holds ys
All-for_some f test holds each [] ys passed done = subst (All holds) (ok-cancel done) tt
All-for_some f test holds each (x ∷ xs) ys (p, ps) done = elim (Outcome-cases (f x)) [
  | inr (e, fx) ↦ absurd (ground (arith, done, fx))
  | inl (o, fx) ↦ elim (Outcome-cases (for_some f xs)) [
    | inr (e, rest) ↦ absurd (elim (Option-cases o) [
      | inl skipped ↦ ground (arith, done, fx, rest, skipped)
      | inr (y, kept) ↦ ground (arith, done, fx, rest, kept)
    ])
    | inl (ys', rest) ↦ elim (Option-cases o) [
      | inl skipped ↦ All-for_some f test holds each xs ys ps (ground (arith, done, fx, skipped))
      | inr (y, kept) ↦
          let e : y ∷ ys' ≡ ys = ground (arith, done, fx, kept, rest) in
          subst (All holds) e
            (each x y p (ground (arith, fx, kept)), All-for_some f test holds each xs ys' ps rest)
    ]
  ]
]

All-select :
    {A : Type 0} (p q : A → Bool) (xs : List A) → All (λ x. p x ≡ true) (select q (select p xs))
All-select p q [] = tt
All-select p q (x ∷ xs) = ground (arith, All-select p q xs)

-- The stock has a symbol of at most 20 characters, one of the three types, and an exchange that is
-- not HOSE.
abbrev pub IsListed : Stock → Type 0
IsListed s =
    (text_length s.symbol ≤ 20)
    × (contains s.type stock_types ≡ true)
    × ((s.exchange == "HOSE") ≡ false)

module _ (pd : Pandas) where
  -- What the loop makes of a row with a type.
  stock_of-fields :
      (ids : List (String × ℕ)) (row : Row pd.Cell) (s : Stock) (t : String)
      → type_text pd row ≡ some t
      → stock_of pd ids row ≡ ok (some s)
      → (sym : String) × (s.symbol ≡ upper (prefix 20 sym))
        × (s.type ≡ normalize_type t)
        × (s.exchange ≡ normalize_exchange (text_of pd (get "exchange" row)))
  unfolding stock_of
  stock_of-fields ids row s t typed done = elim (Option-cases (str pd "symbol" row)) [
    | inl absent ↦ absurd (ground (arith, done, absent))
    | inr (sym, named) ↦ elim (Option-cases (str pd "organ_name" row)) [
      | inl absent ↦ absurd (ground (arith, done, named, absent))
      | inr (name, titled) ↦ (
        sym,
        ground (arith, done, named, titled),
        ground (arith, done, named, titled, typed),
        ground (arith, done, named, titled),
      )
    ]
  ]

  stock_of-IsListed :
      (ids : List (String × ℕ)) (row : Row pd.Cell) (s : Stock)
      → is_allowed pd row ≡ true
      → stock_of pd ids row ≡ ok (some s)
      → IsListed s
  stock_of-IsListed ids row s allowed done = elim (Option-cases (type_text pd row)) [
    | inl untyped ↦ absurd (ground (arith, allowed, untyped))
    | inr (t, typed) ↦
        let (sym, symbol, type, exchange) = stock_of-fields ids row s t typed done in
        let permitted : contains t allowed_types ≡ true = ground (arith, allowed, typed) in
        (
          rw symbol (omega (arith, text_length-upper (prefix 20 sym), text_length-prefix 20 sym)),
          rw type (normalize_type-stock_types t permitted),
          rw exchange (normalize_exchange-ne (text_of pd (get "exchange" row))),
        )
  ]

  -- Of a listing, the processor keeps only stocks with a symbol of at most 20 characters, with one
  -- of the types STOCK, ETF and FUND, and with an exchange that is not HOSE.
  pub transform_stocks-IsListed :
      (df : Frame pd.Cell) (ids : List (String × ℕ)) (stocks : List Stock)
      → transform_stocks pd df ids ≡ ok stocks
      → All IsListed stocks
  unfolding transform_stocks
  transform_stocks-IsListed df ids stocks done = elim (Bool-cases (is_empty_frame df)) [
    | inl empty ↦
        let none_kept : [] ≡ stocks = ground (arith, done, empty) in
        subst (All IsListed) none_kept tt
    | inr full ↦
        elim (Outcome-cases
          (dropna pd ("symbol" ∷ "organ_name" ∷ []) df.columns (select (is_allowed pd) df.rows))) [
            | inr (e, absent) ↦ absurd (ground (arith, done, full, absent))
            | inl (work, kept) ↦
                let rows : select (has_fields pd ("symbol" ∷ "organ_name" ∷ []))
                      (select (is_allowed pd) df.rows)
                    ≡ work =
                  ground (arith, kept) in
                let looped : for_some (stock_of pd ids) work ≡ ok stocks =
                  ground (arith, done, full, kept) in
                All-for_some (stock_of pd ids) (is_allowed pd) IsListed (stock_of-IsListed ids) work
                  stocks
                  (subst (All (λ row. is_allowed pd row ≡ true)) rows (
                    All-select (is_allowed pd) (has_fields pd ("symbol" ∷ "organ_name" ∷ []))
                      df.rows))
                  looped
          ]
  ]
