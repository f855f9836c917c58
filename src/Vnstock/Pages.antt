-- ===== src/Vnstock/Pages.antt =====
-- The pages of a day's trades, from a provider that serves a list of them page by page.
use stock_tracker_data_colle.Base.{
  ℕ, zero, suc, ◌+◌, ◌*◌, ◌≤◌, String, ◌≡◌, refl, sym, ap, subst, ◌∙◌, true, Option, some, List, [],
  ◌∷◌, ◌++◌, map, arith, ltb, inl, inr, Bool-cases, All, length, take, drop, length-take, take-add,
  take-all, append-nil,
}
use stock_tracker_data_colle.Exec.{ok, Exec, lift, ◌>>=◌}
use stock_tracker_data_colle.Config.{Settings}
use stock_tracker_data_colle.Frames.{Pandas, Row, Frame}
use stock_tracker_data_colle.Pipelines.Chunks.{concat, drop-add}
use stock_tracker_data_colle.Vnstock.{Sdk, checked_frame}
use stock_tracker_data_colle.Vnstock.Quotes.{
  next_page, trades_of, fetch_pages, joined, quote_intraday,
}
use stock_tracker_data_colle.Vnstock.Calls.{call-ok}

-- What the limiter and the SDK are relied on for: a call is granted, in some state that it may
-- change; the page of a number (here from 0) is its slice of the trades, with the columns of the
-- feed; and pd.concat of frames of the same columns has the rows of the first, then the second, …
pub record Feed {pd : Pandas} {W : Type 0} (sdk : Sdk pd W) (settings : Settings) (symbol : String)
    : Type 0 where
  pub column : String
  pub columns : List String
  pub source : Option String
  pub trades : List (Row pd.Cell)
  pub grants : (w : W) → (w' : W) × (sdk.acquire "vnstock" w ≡ (ok tt, w'))
  pub serves :
      (page : ℕ) (w : W)
      → (raw : sdk.Raw) × (w' : W) × (trades_of sdk settings symbol (suc page) w ≡ (ok raw, w'))
        × (sdk.as_frame raw
            ≡ some (record {
              columns = column ∷ columns;
              rows =
                  let size = settings.vnstock_intraday_page_size in
                  take size (drop (page * size) trades);
              source = source;
            }))
  pub concat-rows :
      (first : Frame pd.Cell) (rest : List (Frame pd.Cell))
      → All (λ f. f.columns ≡ column ∷ columns) (first ∷ rest)
      → (sdk.concat_frames (first ∷ rest)).rows ≡ concat (map (λ f. f.rows) (first ∷ rest))
  pub no_frame-rows : sdk.no_frame.rows ≡ []

module _ {pd : Pandas} {W : Type 0} (sdk : Sdk pd W) (settings : Settings) (symbol : String)
    (feed : Feed sdk settings symbol) where
  size : ℕ
  size = settings.vnstock_intraday_page_size

  page_of : ℕ → Frame pd.Cell
  page_of page = record {
    columns = feed.column ∷ feed.columns;
    rows = take size (drop (page * size) feed.trades);
    source = feed.source;
  }

  -- A round of the loop.
  round-next_page :
      (left page : ℕ) (w : W)
      → (w' : W) × (fetch_pages sdk settings symbol (suc left) (suc page) w
          ≡ next_page size
              (page_of page)
              (fetch_pages sdk settings symbol left (suc (suc page)))
              w')
  unfolding fetch_pages checked_frame size page_of
  round-next_page left page w =
      let (granted, grants) = feed.grants w in
      let (raw, w', answers, framed) = feed.serves page granted in
      let called =
        call-ok sdk "quote_intraday" (trades_of sdk settings symbol (suc page)) w granted w' raw
          grants answers in
      let checked : checked_frame sdk raw "quote_intraday" true ≡ ok (page_of page) =
        rw (framed, checked_frame) refl in
      let later = fetch_pages sdk settings symbol left (suc (suc page)) in
      (
        w',
        rw called refl
            ∙ ap
                (λ r.
                  (lift r >>= λ frame. next_page settings.vnstock_intraday_page_size frame later)
                    w')
                checked,
      )

  AreRows : List (Frame pd.Cell) → List (Row pd.Cell) → Type 0
  AreRows frames rows =
      All (λ f. f.columns ≡ feed.column ∷ feed.columns) frames
      × (concat (map (λ f. f.rows) frames) ≡ rows)

  take-short :
      (left : ℕ) (xs : List (Row pd.Cell))
      → length xs ≤ size
      → take (size + left * size) xs ≡ take size xs
  take-short left xs short =
      let long : length xs ≤ size + left * size = omega arith in
      take-all (size + left * size) xs long ∙ sym (take-all size xs short)

  -- What a round adds to the frames of the later pages.
  next_page-AreRows :
      1 ≤ size
      → (left : ℕ) (xs rs : List (Row pd.Cell)) → take size xs ≡ rs
      → (later : Exec W (List (Frame pd.Cell))) (w : W)
      → ((frames : List (Frame pd.Cell)) × (w' : W) × (later w ≡ (ok frames, w'))
          × AreRows frames (take (left * size) (drop size xs)))
      → (frames : List (Frame pd.Cell)) × (w' : W) × (next_page size
            (record { columns = feed.column ∷ feed.columns; rows = rs; source = feed.source })
            later
            w
          ≡ (ok frames, w'))
        × AreRows frames (take (size + left * size) xs)
  unfolding AreRows
  next_page-AreRows pos left xs [] cut later w (frames, w', returns, (columns, rows)) =
      let short : length xs ≤ size = omega (arith, length-take size xs, ap length cut, pos) in
      ([], w, refl, (tt, sym (take-short left xs short ∙ cut)))
  next_page-AreRows pos left xs (r ∷ rs) cut later w (frames, w', returns, (columns, rows)) =
      let page : Frame pd.Cell = record {
        columns = feed.column ∷ feed.columns;
        rows = r ∷ rs;
        source = feed.source;
      } in
      elim (Bool-cases (ltb (length (r ∷ rs)) size)) [
        | inl last ↦ (
          page ∷ [],
          w,
          rw last refl,
          (
            (refl, tt),
            append-nil (r ∷ rs)
                ∙ sym (
                    take-short left xs (ground (arith, length-take size xs, ap length cut, last))
                    ∙ cut),
          ),
        )
        | inr full ↦ (
          page ∷ frames,
          w',
          rw (full, returns) refl,
          (
            (refl, columns),
            ap (λ l. r ∷ (rs ++ l)) rows
                ∙ ap (λ l. l ++ take (left * size) (drop size xs)) (sym cut)
                ∙ sym (take-add size (left * size) xs),
          ),
        )
      ]

  Fetches : ℕ → ℕ → W → List (Row pd.Cell) → Type 0
  Fetches left page w rows =
      (frames : List (Frame pd.Cell)) × (w' : W) × (fetch_pages sdk settings symbol left (suc page)
          w
        ≡ (ok frames, w'))
      × AreRows frames rows

  -- The frames of the pages from one on hold the trades from there on, up to the last page.
  fetch_pages-AreRows :
      1 ≤ size
      → (left page : ℕ) (w : W)
      → Fetches left page w (take (left * size) (drop (page * size) feed.trades))
  unfolding AreRows fetch_pages Fetches page_of
  fetch_pages-AreRows pos zero page w =
      let e : 0 * size ≡ 0 = omega arith in
      ([], w, refl, (tt, ap (λ k. take k (drop (page * size) feed.trades)) (sym e)))
  fetch_pages-AreRows pos (suc left) page w =
      let (w', round) = round-next_page left page w in
      let xs = drop (page * size) feed.trades in
      let onward : suc page * size ≡ page * size + size = omega arith in
      let total : suc left * size ≡ size + left * size = omega arith in
      let slices : drop (suc page * size) feed.trades ≡ drop size xs =
        ap (λ k. drop k feed.trades) onward ∙ sym (drop-add size (page * size) feed.trades) in
      let (frames, last, returns, held) =
        next_page-AreRows pos left xs (take size xs) refl
          (fetch_pages sdk settings symbol left (suc (suc page))) w'
          (subst (λ ys. Fetches left (suc page) w' (take (left * size) ys)) slices
            (fetch_pages-AreRows pos left (suc page) w')) in
      (frames, last, round ∙ returns, subst (λ k. AreRows frames (take k xs)) (sym total) held)

  joined-rows :
      (frames : List (Frame pd.Cell)) (rows : List (Row pd.Cell))
      → AreRows frames rows
      → (joined sdk settings frames).rows ≡ rows
  unfolding AreRows
  joined-rows [] rows (columns, held) = feed.no_frame-rows ∙ held
  joined-rows (frame ∷ frames) rows (columns, held) = feed.concat-rows frame frames columns ∙ held

  -- When the limiter grants every call, and pd.concat joins the rows of frames with the same columns:
  -- from a provider that serves a list of trades by pages, for a page size of at least 1, the source
  -- returns a frame with the first trades, in their order: as many as the most pages hold, or all.
  pub quote_intraday-take :
      1 ≤ settings.vnstock_intraday_page_size
      → (w : W)
      → (df : Frame pd.Cell) × (last : W) × (quote_intraday sdk settings symbol w ≡ (ok df, last))
        × (df.rows
            ≡ take
                (settings.vnstock_intraday_max_pages * settings.vnstock_intraday_page_size)
                feed.trades)
  unfolding quote_intraday size Fetches
  quote_intraday-take pos w =
      let (frames, last, returns, held) =
        fetch_pages-AreRows pos settings.vnstock_intraday_max_pages 0 w in
      let e : 0 * size ≡ 0 = omega arith in
      (
        joined sdk settings frames,
        last,
        rw returns refl,
        joined-rows frames (take (settings.vnstock_intraday_max_pages * size) feed.trades) (
            subst
              (λ k.
                AreRows frames
                  (take (settings.vnstock_intraday_max_pages * size) (drop k feed.trades)))
              e held),
      )
