-- ===== src/Pipelines.antt =====
-- app/pipelines: the three pipelines that the engine runs. What they use of the source, the
-- processors, the API and the sinks is an interface; the frames and the payloads are types of it.
pub mod Company
pub mod MarketData
pub mod Listing
pub mod Loop
pub mod Chunks
pub mod Snapshots
pub mod Wiring
pub mod Feed
pub mod Delivered
use stock_tracker_data_colle.Base.{
  ℕ, suc, ◌+◌, eqb, String, Bool, true, false, not, List, [], ◌∷◌, format, if◌then◌else◌,
}
use stock_tracker_data_colle.Errors.{Exn, pipeline_error, is_exception}
use stock_tracker_data_colle.Exec.{Outcome, ok, raised, Exec, pure, raise, ◌>>=◌, ◌>>◌}
use stock_tracker_data_colle.Engine.{World}

-- What Python's own libraries print: str of an int, isoformat of a time, and json.dumps of a flat
-- dict whose values are given by their texts.
pub record Printer : Type 0 where
  pub str : ℕ → String
  pub isoformat : ℕ → String
  pub dumps : List (String × String) → String

-- the `metadata` of a step of one stock
abbrev pub stock_metadata : Printer → String → ℕ → String → String
stock_metadata p symbol stock_id stream =
    p.dumps (("symbol", symbol) ∷ ("stock_id", p.str stock_id) ∷ ("stream", stream) ∷ [])

module _ {S : Type 0} where
  abbrev pub tally : Outcome (Unit {0}) → ℕ → Exec (World S) ℕ
  tally (ok u) failures w = (ok failures, w)
  tally (raised e) failures w = if is_exception e then (ok (failures + 1), w) else (raised e, w)

  -- `try: operation` / `except Exception: failures += 1`
  abbrev pub counted : Exec (World S) (Unit {0}) → ℕ → Exec (World S) ℕ
  counted operation failures w = let (outcome, w') = operation w in tally outcome failures w'

  -- the loop over the operations of one stock
  abbrev pub count_failures : List (Exec (World S) (Unit {0})) → ℕ → Exec (World S) ℕ
  count_failures [] failures = pure failures
  count_failures (operation ∷ operations) failures = do
    n ← counted operation failures
    count_failures operations n

  -- the loop over the stocks
  abbrev pub for_stocks :
      (String → ℕ → List (Exec (World S) (Unit {0}))) → List (String × ℕ) → ℕ → Exec (World S) ℕ
  for_stocks operations [] failures = pure failures
  for_stocks operations ((symbol, stock_id) ∷ stocks) failures = do
    n ← count_failures (operations symbol stock_id) failures
    for_stocks operations stocks n

  -- `if failures: raise PipelineError(…)`
  abbrev pub verdict : Printer → String → ℕ → Exec (World S) (Unit {0})
  verdict p label failures =
      if eqb failures 0
      then pure tt
      else raise (
          pipeline_error (
            format (label ∷ " pipeline incomplete: " ∷ p.str failures ∷ " operations failed" ∷ [])))
