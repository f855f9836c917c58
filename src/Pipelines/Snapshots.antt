-- ===== src/Pipelines/Snapshots.antt =====
-- What reaches the sink of the company pipeline.
use stock_tracker_data_colle.Base.{ℕ, String, ◌≡◌, ◌≢◌, true, false, arith, inl, inr, Bool-cases}
use stock_tracker_data_colle.Exec.{ok, is_ok, Outcome-cases}
use stock_tracker_data_colle.Engine.{World}
use stock_tracker_data_colle.Pipelines.Company.{
  CompanyDeps, Stream, profile, shareholders, officers, affiliations, events, news,
  source_operation, is_incomplete, sync_company,
}

abbrev pub IsComplete : Stream → ℕ → ℕ → Type 0
IsComplete profile items rows = Unit
IsComplete _ items rows = (items ≢ 0) × (items ≡ rows)

IsComplete-of :
    (stream : Stream) (items rows : ℕ)
    → is_incomplete stream items rows ≡ false
    → IsComplete stream items rows
IsComplete-of profile items rows h = tt
IsComplete-of shareholders items rows h = ground arith
IsComplete-of officers items rows h = ground arith
IsComplete-of affiliations items rows h = ground arith
IsComplete-of events items rows h = ground arith
IsComplete-of news items rows h = ground arith

module _ {S : Type 0} (deps : CompanyDeps S) where
  -- An operation of the company pipeline that returns has extracted a frame and transformed it,
  -- and has sent the payload once, as the last thing it did; for a snapshot the payload has an item
  -- for every row, and at least one.
  pub sync_company-IsComplete :
      (stream : Stream) (symbol : String) (stock_id : ℕ) (w : World S)
      → is_ok (sync_company deps stream symbol stock_id w).0 ≡ true
      → (df : deps.Frame) × (payload : deps.Payload) × (v : World S) × (deps.extract
            (source_operation stream)
            symbol
            w
          ≡ (ok df, v))
        × (deps.transform stream stock_id df symbol ≡ ok payload)
        × IsComplete stream (deps.items payload) (deps.rows df)
        × (sync_company deps stream symbol stock_id w
            ≡ deps.send_put (deps.path stream stock_id) payload v)
  unfolding sync_company
  sync_company-IsComplete stream symbol stock_id w h =
      let (extracted, v) = deps.extract (source_operation stream) symbol w in
      elim (Outcome-cases extracted) [
        | inl (df, found) ↦ elim (Outcome-cases (deps.transform stream stock_id df symbol)) [
          | inl (payload, transformed) ↦
              elim (Bool-cases (is_incomplete stream (deps.items payload) (deps.rows df))) [
                | inl incomplete ↦ ground (arith, found, transformed, incomplete)
                | inr complete ↦ (
                  df,
                  payload,
                  v,
                  (λ i. (found i, v)),
                  transformed,
                  IsComplete-of stream (deps.items payload) (deps.rows df) complete,
                  ground (arith, found, transformed, complete),
                )
              ]
          | inr (e, failed) ↦ ground (arith, found, failed)
        ]
        | inr (e, failed) ↦ ground (arith, failed)
      ]
