-- ===== src/Rabbit/Published.antt =====
-- What a message that is published without an exception leaves at the broker.
use stock_tracker_data_colle.Base.{
  ℕ, String, ◌≡◌, refl, sym, ap, ◌∙◌, true, List, [], ◌∷◌, ◌++◌, arith, inl, inr, Option-cases,
  some,
}
use stock_tracker_data_colle.Exec.{ok, Exec, ◌>>◌, chain-ok}
use stock_tracker_data_colle.Config.{Settings}
use stock_tracker_data_colle.Rabbit.{
  ExchangeType, exchange_type, Broker, RabbitMqSink, on_broker, open_channel, connect,
  ensure_connected, deliver, publish_message,
}

-- The messages that the broker has confirmed, with their routing keys: only a publication adds one.
pub record Logs {W M : Type 0} (broker : Broker W M) (log : W → List (String × String))
    : Type 0 where
  pub granted : (service : String) (w : W) → log (broker.acquire service w).1 ≡ log w
  pub connected : (url : String) (w : W) → log (broker.connect_robust url w).1 ≡ log w
  pub opened : (connection : ℕ) (w : W) → log (broker.channel connection w).1 ≡ log w
  pub declared :
      (channel : ℕ) (name : String) (kind : ExchangeType) (w : W)
      → log (broker.declare_exchange channel name kind w).1 ≡ log w
  pub confirmed :
      (exchange : ℕ) (body routing_key : String) (w w' : W)
      → broker.publish exchange body routing_key w ≡ (ok tt, w')
      → log w' ≡ log w ++ (routing_key, body) ∷ []

module _ {W M : Type 0} (broker : Broker W M) (settings : Settings)
    (log : W → List (String × String)) (logs : Logs broker log) where
  -- an action of the broker that returns, and leaves the log
  kept :
      {A : Type 0} (action : Exec W A) (sink last : RabbitMqSink W) (a : A)
      → ((w : W) → log (action w).1 ≡ log w)
      → on_broker action sink ≡ (ok a, last)
      → log last.world ≡ log sink.world
  kept action sink last a same done = ap (λ r. log r.1.world) (sym done) ∙ same sink.world

  open_channel-log :
      (sink last : RabbitMqSink W) (channel : ℕ)
      → open_channel broker settings sink ≡ (ok channel, last)
      → log last.world ≡ log sink.world
  unfolding open_channel
  open_channel-log sink last channel done =
      let (t, s1, granted, in_granted) =
        chain-ok (on_broker (broker.acquire "rabbitmq")) _ sink last channel done in
      let (c, s2, connected, in_connected) =
        chain-ok (on_broker (broker.connect_robust settings.rabbitmq_url)) _ s1 last channel
          in_granted in
      let s3 = record s2 { connection = some c } in
      let (h, s4, opened, made) =
        chain-ok (on_broker (broker.channel c)) _ s3 last channel in_connected in
      ap (λ r. log r.1.world) (sym made)
      ∙ kept (broker.channel c) s3 s4 h (logs.opened c) opened
      ∙ kept (broker.connect_robust settings.rabbitmq_url) s1 s2 c
          (logs.connected settings.rabbitmq_url) connected
      ∙ kept (broker.acquire "rabbitmq") sink s1 t (logs.granted "rabbitmq") granted

  ensure_connected-log :
      (sink last : RabbitMqSink W)
      → ensure_connected broker settings sink ≡ (ok tt, last)
      → log last.world ≡ log sink.world
  unfolding ensure_connected connect
  ensure_connected-log sink last done = elim (Option-cases sink.exchange) [
    | inr (exchange, held) ↦
        let same : last ≡ sink = ground (arith, done, held) in ap (λ s. log s.world) same
    | inl absent ↦
        let unfolded : ensure_connected broker settings sink ≡ connect broker settings sink =
          rw absent refl in
        let connects : connect broker settings sink ≡ (ok tt, last) = sym unfolded ∙ done in
        let (channel, s, opened, later) =
          chain-ok (open_channel broker settings) _ sink last tt connects in
        let kind = exchange_type broker settings in
        let declares = broker.declare_exchange channel settings.rabbitmq_exchange kind in
        let (exchange, s', declared, made) = chain-ok (on_broker declares) _ s last tt later in
        ap (λ r. log r.1.world) (sym made)
        ∙ kept declares s s' exchange (logs.declared channel settings.rabbitmq_exchange kind)
            declared
        ∙ open_channel-log sink s channel opened
  ]

  deliver-log :
      (body routing_key : String) (sink last : RabbitMqSink W)
      → deliver broker settings body routing_key sink ≡ (ok tt, last)
      → log last.world ≡ log sink.world ++ (routing_key, body) ∷ []
  unfolding deliver
  deliver-log body routing_key sink last done = elim (Option-cases sink.exchange) [
    | inl absent ↦ absurd (ground (arith, done, absent))
    | inr (exchange, held) ↦
        let sends = on_broker (broker.publish exchange body routing_key) in
        let unfolded : deliver broker settings body routing_key sink
            ≡ (on_broker (broker.acquire "rabbitmq") >> sends) sink =
          rw held refl in
        let (t, s, granted, published) =
          chain-ok (on_broker (broker.acquire "rabbitmq")) _ sink last tt (sym unfolded ∙ done) in
        logs.confirmed exchange body routing_key s.world last.world
          (ap (λ r. (r.0, r.1.world)) published)
        ∙ ap (λ l. l ++ (routing_key, body) ∷ [])
            (kept (broker.acquire "rabbitmq") sink s t (logs.granted "rabbitmq") granted)
  ]

  -- A message that is published is the one message that the log has more.
  pub publish_message-log :
      (routing_key : String) (m : M) (sink last : RabbitMqSink W)
      → settings.rabbitmq_enabled ≡ true
      → publish_message broker settings routing_key m sink ≡ (ok tt, last)
      → log last.world ≡ log sink.world ++ (routing_key, broker.dumps m) ∷ []
  unfolding publish_message
  publish_message-log routing_key m sink last enabled done =
      let delivers = deliver broker settings (broker.dumps m) routing_key in
      let unfolded : publish_message broker settings routing_key m sink
          ≡ (ensure_connected broker settings >> delivers) sink =
        rw enabled refl in
      let (t, s, connected, delivered) =
        chain-ok (ensure_connected broker settings) _ sink last tt (sym unfolded ∙ done) in
      deliver-log (broker.dumps m) routing_key s last delivered
      ∙ ap (λ l. l ++ (routing_key, broker.dumps m) ∷ []) (ensure_connected-log sink s connected)
