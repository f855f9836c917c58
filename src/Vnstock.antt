-- ===== src/Vnstock.antt =====
-- app/plugins/sources/vnstock_source.py: VnstockSource. The SDK is a record of actions, which may
-- raise any exception; the rate limiter is an action too.
pub mod Catalog
pub mod Quotes
pub mod Extract
pub mod Calls
pub mod Pages
pub mod Baskets
pub mod Full
use stock_tracker_data_colle.Base.{
  ℕ, String, Bool, true, false, not, ◌&&◌, Option, none, some, List, [], ◌∷◌, if◌then◌else◌, format,
}
use stock_tracker_data_colle.Errors.{
  Exn, source_error, is_exception, is_source_error, is_system_exit, message,
}
use stock_tracker_data_colle.Exec.{Outcome, ok, raised, Exec, pure, raise, try_except, ◌>>=◌, ◌>>◌}
use stock_tracker_data_colle.Config.{Settings}
use stock_tracker_data_colle.Frames.{Pandas, Frame, is_empty_frame}

-- An entry of INDICES_INFO: what info.get finds under "name", as a text, "description" and "group".
pub record IndexInfo : Type 0 where
  pub name : Option String
  pub description : Option String
  pub group : Option (Option String)

-- What the source calls, on the state W of the world. A Raw is what the SDK returns.
pub record Sdk (pd : Pandas) (W : Type 0) : Type 1 where
  pub Raw : Type 0
  -- raw, if isinstance(raw, pd.DataFrame)
  pub as_frame : Raw → Option (Frame pd.Cell)
  -- raw.tolist(), if isinstance(raw, pd.Series)
  pub as_series : Raw → Option (List pd.Cell)
  -- rate_limiter.acquire(service)
  pub acquire : String → Exec W (Unit {0})
  -- INDEX_GROUPS, INDICES_INFO
  pub index_metadata : Exec W (List (String × List String) × List (String × IndexInfo))
  -- reference().industry.list(source)
  pub industries : String → Exec W Raw
  -- reference().equity.list_by_exchange(source)
  pub list_by_exchange : String → Exec W Raw
  -- reference().equity.list_by_group(group, source)
  pub list_by_group : String → String → Exec W Raw
  -- reference().index.groups(source)
  pub groups : String → Exec W Raw
  -- getattr(reference().company(symbol), method)(source)
  pub company : String → String → String → Exec W Raw
  -- market().equity(symbol).ohlcv(start, end, interval, source), with count=None
  pub ohlcv : String → String → String → String → String → Exec W Raw
  -- market().equity(symbol).trades(page, page_size, source)
  pub trades : String → ℕ → ℕ → String → Exec W Raw
  -- pd.concat(frames, ignore_index=True), with the attrs of the first frame
  pub concat_frames : List (Frame pd.Cell) → Frame pd.Cell
  -- pd.DataFrame()
  pub no_frame : Frame pd.Cell
  -- the ordinal of today, in Ho Chi Minh City
  pub today : Exec W ℕ
  -- date.fromisoformat(text), as an ordinal; none is its ValueError
  pub fromisoformat : String → Option ℕ
  pub isoformat : ℕ → String

module _ {pd : Pandas} {W : Type 0} (sdk : Sdk pd W) where
  -- _run_in_thread
  unfoldable pub run_in_thread : {A : Type 0} → Exec W A → Exec W A
  run_in_thread func = try_except func λ exc.
      if is_system_exit exc
      then raise (source_error (format ("vnstock terminated the request: " ∷ message exc ∷ [])))
      else raise exc

  -- the handlers of _call
  abbrev pub wrapped : {A : Type 0} → String → Exn → Exec W A
  wrapped operation exc =
      if not (is_source_error exc) && is_exception exc
      then raise (source_error (format ("vnstock " ∷ operation ∷ " failed: " ∷ message exc ∷ [])))
      else raise exc

  -- _call
  unfoldable pub call : {A : Type 0} → String → Exec W A → Exec W A
  call operation func = do
    sdk.acquire "vnstock"
    try_except (run_in_thread func) (wrapped operation)

  -- _frame
  unfoldable pub checked_frame : sdk.Raw → String → Bool → Outcome (Frame pd.Cell)
  checked_frame raw operation allow_empty = elim (sdk.as_frame raw) [
    | none ↦ raised (source_error (format ("vnstock " ∷ operation ∷ ": expected DataFrame" ∷ [])))
    | some frame ↦
        if not allow_empty && is_empty_frame frame
        then raised (
            source_error (
              format ("vnstock " ∷ operation ∷ ": empty snapshot; refusing destructive sync" ∷ [])))
        else ok frame
  ]
