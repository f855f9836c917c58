-- ===== src/Pipelines/Delivered.antt =====
-- From the provider to the exchange: what an operation of the market data pipeline that returns has
-- fetched, made of it and delivered.
use mathlib.Core.List.{map-map}
use stock_tracker_data_colle.Pipelines.Chunks.{concat, IsChunk}
use stock_tracker_data_colle.Processors.Candles.{IsCandle, payloads-IsCandle}
use stock_tracker_data_colle.Processors.MarketData.{transform_price_history}
use stock_tracker_data_colle.Exec.Fallible.{Pairs}
use stock_tracker_data_colle.Vnstock.Full.{IsFull, HoldsFull, extract-HoldsFull}
use stock_tracker_data_colle.Base.{
  ℕ, ◌≤◌, String, ◌≡◌, refl, sym, ap, ◌∙◌, subst, true, false, Option, List, [], ◌∷◌, ◌++◌, map,
  append-nil, append_assoc, length, All,
}
use stock_tracker_data_colle.Exec.{
  Outcome, ok, raised, Exec, lift, chain-ok, ok-cancel, Always, Always-pass, Returns,
}
use stock_tracker_data_colle.Config.{Settings}
use stock_tracker_data_colle.Frames.{Pandas, Frame, Identity, is_empty_frame}
use stock_tracker_data_colle.Schemas.{StockPriceHistoryRecord, StockPriceHistorySync}
use stock_tracker_data_colle.Engine.{World}
use stock_tracker_data_colle.Pipelines.{Printer}
use stock_tracker_data_colle.Pipelines.MarketData.{
  Stream, price_history, MarketDataDeps, publish_all, sync_market_data,
}
use stock_tracker_data_colle.Pipelines.Feed.{
  Message, a_history, Outside, mapped, on_provider, on_sink, fetch, messages_of, routing_key_of,
  fed, as_frame,
}
use stock_tracker_data_colle.Vnstock.{Sdk}
use stock_tracker_data_colle.Vnstock.Extract.{
  Extracted, Kwargs, extract, a_frame, a_series, baskets,
}
use stock_tracker_data_colle.Rabbit.{Broker, RabbitMqSink, publish_message}
use stock_tracker_data_colle.Rabbit.Published.{Logs, publish_message-log}

module _ {V W : Type 0} where
  on_sink-ok :
      {A : Type 0} (m : Exec (RabbitMqSink W) A) (w last : World (Outside V W)) (a : A)
      → on_sink m w ≡ (ok a, last)
      → m w.outside.sink ≡ (ok a, last.outside.sink)
  on_sink-ok m w last a done = ap (λ r. (r.0, r.1.outside.sink)) done

  on_provider-ok :
      {A : Type 0} (m : Exec V A) (w last : World (Outside V W)) (a : A)
      → on_provider m w ≡ (ok a, last)
      → (m w.outside.provider ≡ (ok a, last.outside.provider))
        × (w.outside.sink ≡ last.outside.sink)
  on_provider-ok m w last a done =
      (ap (λ r. (r.0, r.1.outside.provider)) done, ap (λ r. r.1.outside.sink) done)

module _ {pd : Pandas} (digest : List (Identity pd) → String) {V W : Type 0} (sdk : Sdk pd V)
    (broker : Broker W (Message pd)) (settings : Settings)
    (archive : Option (String → Extracted pd → Option String → Kwargs → Exec V (Unit {0})))
    (fetch_map : List String → Exec (World (Outside V W)) (List (String × ℕ))) (printer : Printer)
    (log : W → List (String × String)) (logs : Logs broker log)
    (enabled : settings.rabbitmq_enabled ≡ true) where
  -- the pipeline's dependencies
  abbrev deps : MarketDataDeps (Outside V W)
  deps = fed digest sdk broker settings archive fetch_map printer

  abbrev addressed : String → List (Message pd) → List (String × String)
  addressed routing_key messages = map (λ m. (routing_key, broker.dumps m)) messages

  publish_all-log :
      (routing_key : String) (messages : List (Message pd)) (w last : World (Outside V W))
      → publish_all deps routing_key messages w ≡ (ok tt, last)
      → log last.outside.sink.world ≡ log w.outside.sink.world ++ addressed routing_key messages
  publish_all-log routing_key [] w last done =
      ap (λ r. log r.1.outside.sink.world) (sym done) ∙ sym (append-nil _)
  publish_all-log routing_key (m ∷ messages) w last done =
      let (t, w', first, others) =
        chain-ok (on_sink (publish_message broker settings routing_key m)) _ w last tt done in
      publish_all-log routing_key messages w' last others
      ∙ ap (λ l. l ++ addressed routing_key messages)
          (publish_message-log broker settings log logs routing_key m w.outside.sink w'.outside.sink
            enabled (on_sink-ok (publish_message broker settings routing_key m) w w' tt first))
      ∙ append_assoc (log w.outside.sink.world) ((routing_key, broker.dumps m) ∷ [])
          (addressed routing_key messages)

  lift-ok :
      {A : Type 0} (r : Outcome A) (w last : World (Outside V W)) (a : A)
      → lift r w ≡ (ok a, last)
      → (r ≡ ok a) × (w ≡ last)
  lift-ok r w last a done = (ap (λ t. t.0) done, ap (λ t. t.1) done)

  -- What an operation of the stream that returns n at the world w has fetched and delivered.
  record Delivered (chunk_size : ℕ) (stream : Stream) (symbol : String) (stock_id n : ℕ)
      (w last : World (Outside V W)) : Type 0 where
    df : Frame pd.Cell
    after : V
    messages : List (Message pd)
    fetched :
        fetch digest sdk broker settings archive stream symbol w.outside.provider ≡ (ok df, after)
    transformed :
        messages_of digest sdk broker settings archive chunk_size stream stock_id df ≡ ok messages
    counted : n ≡ length df.rows
    logged :
        log last.outside.sink.world
        ≡ log w.outside.sink.world
          ++ addressed (routing_key_of digest sdk broker settings archive stream) messages

  sync_market_data-Delivered :
      (chunk_size : ℕ) (stream : Stream) (symbol : String) (stock_id n : ℕ)
      (w last : World (Outside V W))
      → sync_market_data deps chunk_size stream symbol stock_id w ≡ (ok n, last)
      → Delivered chunk_size stream symbol stock_id n w last
  unfolding sync_market_data
  sync_market_data-Delivered chunk_size stream symbol stock_id n w last done =
      let fetches = fetch digest sdk broker settings archive stream symbol in
      let (df, w1, fetched, in_fetched) = chain-ok (on_provider fetches) _ w last n done in
      let makes = messages_of digest sdk broker settings archive chunk_size stream stock_id df in
      let (messages, w2, made, in_made) = chain-ok (lift makes) _ w1 last n in_fetched in
      let routing_key = routing_key_of digest sdk broker settings archive stream in
      let (t, w3, sent, counted) =
        chain-ok (publish_all deps routing_key messages) _ w2 last n in_made in
      let (provided, untouched) = on_provider-ok fetches w w1 df fetched in
      let (transformed, same) = lift-ok makes w1 w2 messages made in
      record {
        df = df;
        after = w1.outside.provider;
        messages = messages;
        fetched = provided;
        transformed = transformed;
        counted = ok-cancel (ap (λ r. r.0) (sym counted));
        logged =
            ap (λ r. log r.1.outside.sink.world) (sym counted)
            ∙ publish_all-log routing_key messages w2 w3 sent
            ∙ ap (λ l. l ++ addressed routing_key messages)
                (ap (λ (v : World (Outside V W)). log v.outside.sink.world) (sym same)
                  ∙ ap (λ k. log k.world) (sym untouched));
      }

  fetch-IsFull :
      (symbol : String)
      → Always (IsFull sdk settings) (fetch digest sdk broker settings archive price_history symbol)
  unfolding fetch
  fetch-IsFull symbol =
      let kwargs =
        ("symbol", symbol) ∷ ("interval", settings.vnstock_price_history_interval) ∷ [] in
      Always-pass (HoldsFull sdk settings) (IsFull sdk settings)
        (extract sdk settings archive "quote_history" kwargs) _
        (extract-HoldsFull sdk settings archive kwargs) (each_frame)
    where
      each_frame :
          (result : Extracted pd)
          → HoldsFull sdk settings result
          → Always (IsFull sdk settings) (as_frame digest sdk broker settings archive result)
      each_frame (a_frame df) full s = full
      each_frame (a_series members) full s = tt
      each_frame (baskets rows) full s = tt

  unwrapped :
      (r : Outcome (List (StockPriceHistorySync (StockPriceHistoryRecord pd))))
      (messages : List (Message pd))
      → mapped a_history r ≡ ok messages
      → (payloads : List (StockPriceHistorySync (StockPriceHistoryRecord pd))) × (r ≡ ok payloads)
        × (messages ≡ map a_history payloads)
  unwrapped (ok payloads) messages done = (payloads, refl, sym (ok-cancel done))
  unwrapped (raised e) messages done = cc

  returned :
      {A : Type 0} (P : A → Type 0) (m : Exec V A) (s s' : V) (a : A)
      → Always P m
      → m s ≡ (ok a, s')
      → P a
  returned P m s s' a always done = subst (λ r. Returns P r.0) done (always s)

  -- Let RabbitMQ be enabled, the chunk size be positive, and the broker confirm what it publishes. An
  -- operation of the price history that returns n has fetched a frame of n rows, which is not empty.
  -- The messages that the exchange has more than before, under the routing key of the settings, are
  -- payloads of the processor, in their order, none of them empty or longer than the chunk size.
  -- Together they hold one candle for each row of the frame, in the order of the rows.
  pub sync_price_history-Delivered :
      (chunk_size : ℕ) (symbol : String) (stock_id n : ℕ) (w last : World (Outside V W))
      → 1 ≤ chunk_size
      → sync_market_data deps chunk_size price_history symbol stock_id w ≡ (ok n, last)
      → (df : Frame pd.Cell) × (payloads : List
          (StockPriceHistorySync (StockPriceHistoryRecord pd)))
        × ((fetch digest sdk broker settings archive price_history symbol w.outside.provider).0
            ≡ ok df)
        × (is_empty_frame df ≡ false)
        × (n ≡ length df.rows)
        × (log last.outside.sink.world
            ≡ log w.outside.sink.world
              ++ map
                  (λ p. (settings.rabbitmq_routing_key_price_history, broker.dumps (a_history p)))
                  payloads)
        × Pairs
            (IsCandle pd settings.vnstock_price_history_interval)
            df.rows
            (concat (map (λ p. p.records) payloads))
        × All (λ p. IsChunk chunk_size p.records) payloads
  sync_price_history-Delivered chunk_size symbol stock_id n w last pos done =
      let d = sync_market_data-Delivered chunk_size price_history symbol stock_id n w last done in
      let interval = settings.vnstock_price_history_interval in
      let full : is_empty_frame d.df ≡ false =
        returned (IsFull sdk settings)
          (fetch digest sdk broker settings archive price_history symbol) w.outside.provider d.after
          d.df (fetch-IsFull symbol) d.fetched in
      let (payloads, made, same) =
        unwrapped (transform_price_history pd chunk_size stock_id d.df interval) d.messages
          (unfold messages_of in d.transformed) in
      let (candles, sized, intervals) =
        payloads-IsCandle pd chunk_size stock_id d.df interval payloads pos full made in
      (
        d.df,
        payloads,
        ap (λ r. r.0) d.fetched,
        full,
        d.counted,
        d.logged
            ∙ ap
                (λ ms.
                  log w.outside.sink.world
                  ++ addressed settings.rabbitmq_routing_key_price_history ms)
                same
            ∙ ap (λ l. log w.outside.sink.world ++ l)
                (map-map (λ m. (settings.rabbitmq_routing_key_price_history, broker.dumps m))
                  a_history payloads),
        candles,
        sized,
      )
