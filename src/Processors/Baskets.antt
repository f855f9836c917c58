-- ===== src/Processors/Baskets.antt =====
-- The indices that transform_market_indices makes of the baskets.
use stock_tracker_data_colle.Base.{
  refl, every, is_some, leb, not, ◌&&◌, Bool, ap, fun_ext, ◌∙◌, ℕ, ◌≤◌, String, ◌≡◌, subst, false,
  some, List, [], ◌∷◌, arith, lookup, inl, inr, Bool-cases, Option-cases,
}
use stock_tracker_data_colle.Base.Texts.{text_length}
use stock_tracker_data_colle.Exec.{ok, is_ok, Returns, Returns-cases}
use stock_tracker_data_colle.Exec.Fallible.{Pairs, for_each-Pairs, for_each-every}
use stock_tracker_data_colle.Schemas.{MarketIndex, IndexBasketRow}
use stock_tracker_data_colle.Processors.Listing.{
  found_ids, has_missing, is_nil, market_index_of, transform_market_indices,
}

-- Each symbol has its stock id, in the order of the symbols.
abbrev pub AreStocks : List (String × ℕ) → List String → List ℕ → Type 0
AreStocks ids = Pairs (λ symbol id. lookup symbol ids ≡ some id)

found_ids-AreStocks :
    (ids : List (String × ℕ)) (symbols : List String)
    → has_missing ids symbols ≡ false
    → AreStocks ids symbols (found_ids ids symbols)
found_ids-AreStocks ids [] h = tt
found_ids-AreStocks ids (s ∷ symbols) h = elim (Option-cases (lookup s ids)) [
  | inl absent ↦ absurd (ground (arith, h, absent))
  | inr (id, found) ↦
      let rest : has_missing ids symbols ≡ false = ground (arith, h, found) in
      let split : id ∷ found_ids ids symbols ≡ found_ids ids (s ∷ symbols) =
        ground (arith, found) in
      subst (AreStocks ids (s ∷ symbols)) split (found, found_ids-AreStocks ids symbols rest)
]

abbrev pub IsIndex : List (String × ℕ) → IndexBasketRow → MarketIndex → Type 0
IsIndex ids basket index =
    (index.symbol ≡ basket.symbol)
    × (text_length index.symbol ≤ 32)
    × (is_nil basket.constituent_symbols ≡ false)
    × AreStocks ids basket.constituent_symbols index.stock_ids

market_index_of-IsIndex :
    (ids : List (String × ℕ)) (basket : IndexBasketRow) (index : MarketIndex)
    → market_index_of ids basket ≡ ok index
    → IsIndex ids basket index
unfolding market_index_of
market_index_of-IsIndex ids basket index done =
    elim (Bool-cases (has_missing ids basket.constituent_symbols)) [
      | inl missing ↦ absurd (ground (arith, done, missing))
      | inr mapped ↦
          let (same, short, some_stock) : (index.symbol ≡ basket.symbol)
              × (text_length index.symbol ≤ 32)
              × (is_nil basket.constituent_symbols ≡ false) =
            ground (arith, done, mapped) in
          let ids_of : found_ids ids basket.constituent_symbols ≡ index.stock_ids =
            ground (arith, done, mapped) in
          (
            same,
            short,
            some_stock,
            subst (AreStocks ids basket.constituent_symbols) ids_of
                (found_ids-AreStocks ids basket.constituent_symbols mapped),
          )
    ]

-- Every constituent of the basket has a stock id, there is one, and the symbol is short enough.
abbrev pub is_complete : List (String × ℕ) → IndexBasketRow → Bool
is_complete ids basket =
    not (is_nil basket.constituent_symbols)
    && every (λ symbol. is_some (lookup symbol ids)) basket.constituent_symbols
    && leb (text_length basket.symbol) 32

has_missing-every :
    (ids : List (String × ℕ)) (symbols : List String)
    → has_missing ids symbols ≡ not (every (λ symbol. is_some (lookup symbol ids)) symbols)
has_missing-every ids [] = refl
has_missing-every ids (s ∷ symbols) = ground (arith, has_missing-every ids symbols)

market_index_of-is_complete :
    (ids : List (String × ℕ)) (basket : IndexBasketRow)
    → is_ok (market_index_of ids basket) ≡ is_complete ids basket
unfolding market_index_of
market_index_of-is_complete ids basket =
    ground (arith, has_missing-every ids basket.constituent_symbols)

-- The processor returns exactly if every basket is complete: it has constituents, each of them has a
-- stock id, and its symbol has at most 32 characters. The indices that it returns are one for each
-- basket, in the order of the baskets, with the symbol of the basket and, for each constituent at its
-- place, the stock id: none is left out.
pub transform_market_indices-IsIndex :
    (baskets : List IndexBasketRow) (ids : List (String × ℕ))
    → (is_ok (transform_market_indices baskets ids) ≡ every (is_complete ids) baskets)
      × Returns (Pairs (IsIndex ids) baskets) (transform_market_indices baskets ids)
unfolding transform_market_indices
transform_market_indices-IsIndex baskets ids = (
  for_each-every (market_index_of ids) baskets
      ∙ ap (λ test. every test baskets) (fun_ext (market_index_of-is_complete ids)),
  Returns-cases (Pairs (IsIndex ids) baskets) (transform_market_indices baskets ids)
      (for_each-Pairs (IsIndex ids) (market_index_of ids) (market_index_of-IsIndex ids) baskets),
)
