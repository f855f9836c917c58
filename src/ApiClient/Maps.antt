-- ===== src/ApiClient/Maps.antt =====
-- What the map of the stocks holds.
use stock_tracker_data_colle.Base.{
  ℕ, String, ◌≡◌, ◌⊎◌, Bool, true, false, ◌&&◌, some, List, [], ◌∷◌, arith, inl, inr, ◌==◌, eqb,
  eq_iff, lookup, insert, lookup-insert, exists, select, Bool-cases,
}
use stock_tracker_data_colle.Exec.{ok, Outcome-cases}
use stock_tracker_data_colle.Json.{Json}
use stock_tracker_data_colle.ApiClient.{
  StockApiRow, ApiDeps, stock_map, stock_rows, mapping, type_in, lacks_type,
}

-- Whether a row has the symbol and the identifier, and passes the test.
abbrev pub is_row : (StockApiRow → Bool) → String → ℕ → StockApiRow → Bool
is_row test symbol id r = r.symbol == symbol && eqb r.id id && test r

-- An entry of the map is that of a selected row, or was there before.
lookup-mapping :
    (test : StockApiRow → Bool) (rows : List StockApiRow) (entries : List (String × ℕ))
    (symbol : String) (id : ℕ)
    → lookup symbol (mapping (λ r. r.symbol) (λ r. r.id) (select test rows) entries) ≡ some id
    → (exists (is_row test symbol id) rows ≡ true) ⊎ (lookup symbol entries ≡ some id)
lookup-mapping test [] entries symbol id h = inr h
lookup-mapping test (r ∷ rows) entries symbol id h = elim (Bool-cases (test r)) [
  | inl chosen ↦ ground (
    arith,
    chosen,
    lookup-mapping test rows (insert r.symbol r.id entries) symbol id,
    lookup-insert r.symbol symbol r.id entries,
    eq_iff r.symbol symbol,
  )
  | inr other ↦ ground (arith, other, lookup-mapping test rows entries symbol id)
]

-- With asset types given, an entry of the map that the client returns is the symbol and the
-- identifier of a row of the answer whose type is one of those given; and no row of the answer lacks
-- its type.
stock_map_types :
    {S : Type 0} (deps : ApiDeps S) (stock_types : List String) (raw : Json)
    (entries : List (String × ℕ)) (symbol : String) (id : ℕ)
    → stock_map deps (some stock_types) raw ≡ ok entries
    → lookup symbol entries ≡ some id
    → (rows : List StockApiRow) × (stock_rows deps raw ≡ ok rows)
      × (exists (is_row (type_in stock_types) symbol id) rows ≡ true)
      × (exists lacks_type rows ≡ false)
unfolding stock_map
stock_map_types deps stock_types raw entries symbol id made found =
    elim (Outcome-cases (stock_rows deps raw)) [
      | inl (rows, answered) ↦ (
        rows,
        answered,
        ground (arith, answered, lookup-mapping (type_in stock_types) rows [] symbol id),
        ground (arith, answered),
      )
      | inr (e, failed) ↦ ground (arith, failed)
    ]
