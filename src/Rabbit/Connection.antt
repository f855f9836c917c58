-- ===== src/Rabbit/Connection.antt =====
-- How the sink keeps its connection over several messages and gives it back.
use stock_tracker_data_colle.Base.{
  String, ◌≡◌, refl, sym, ap, ◌∙◌, subst, true, List, [], ◌∷◌, arith, inl, inr, Option-cases,
  is_some,
}
use stock_tracker_data_colle.Exec.{
  ok, Exec, pure, Outcome-cases, ◌>>◌, continue, chain-ok, then-same, then_assoc,
}
use stock_tracker_data_colle.Config.{Settings}
use stock_tracker_data_colle.Rabbit.{
  Broker, RabbitMqSink, exchange_type, open_channel, on_broker, connect, ensure_connected, deliver,
  publish_message,
}

module _ {W M : Type 0} (broker : Broker W M) (settings : Settings) where
  -- for message in messages: await sink.publish_message(routing_key, message)
  abbrev pub publish_all : String → List M → Exec (RabbitMqSink W) (Unit {0})
  publish_all routing_key [] = pure tt
  publish_all routing_key (m ∷ messages) =
      publish_message broker settings routing_key m >> publish_all routing_key messages

  -- The messages, over the exchange that the sink has.
  abbrev pub deliver_all : String → List M → Exec (RabbitMqSink W) (Unit {0})
  deliver_all routing_key [] = pure tt
  deliver_all routing_key (m ∷ messages) =
      deliver broker settings (broker.dumps m) routing_key >> deliver_all routing_key messages

  deliver-exchange :
      (body routing_key : String) (sink : RabbitMqSink W)
      → (deliver broker settings body routing_key sink).1.exchange ≡ sink.exchange
  unfolding deliver
  deliver-exchange body routing_key sink = elim (Option-cases sink.exchange) [
    | inl absent ↦ ground (arith, absent)
    | inr (exchange, held) ↦ elim (Outcome-cases (broker.acquire "rabbitmq" sink.world).0) [
      | inl (t, granted) ↦ ground (
        arith,
        held,
        granted,
        Outcome-cases
            (broker.publish exchange body routing_key (broker.acquire "rabbitmq" sink.world).1).0,
      )
      | inr (e, refused) ↦ ground (arith, held, refused)
    ]
  ]

  ensure_connected-is_some :
      (sink last : RabbitMqSink W)
      → ensure_connected broker settings sink ≡ (ok tt, last)
      → is_some last.exchange ≡ true
  unfolding ensure_connected connect
  ensure_connected-is_some sink last done = elim (Option-cases sink.exchange) [
    | inr (exchange, held) ↦
        let same : sink ≡ last = ground (arith, done, held) in
        subst (λ s. is_some s.exchange ≡ true) same (rw held refl)
    | inl absent ↦
        let unfolded : ensure_connected broker settings sink ≡ connect broker settings sink =
          rw absent refl in
        let connects : connect broker settings sink ≡ (ok tt, last) = sym unfolded ∙ done in
        let (channel, s, opened, later) =
          chain-ok (open_channel broker settings) _ sink last tt connects in
        let (exchange, s', declared, made) =
          chain-ok
            (on_broker (
              broker.declare_exchange channel settings.rabbitmq_exchange
                (exchange_type broker settings)))
            _ s last tt later in
        ap (λ r. is_some r.1.exchange) (sym made)
  ]

  ensure_connected-again :
      (sink : RabbitMqSink W)
      → is_some sink.exchange ≡ true
      → ensure_connected broker settings sink ≡ (ok tt, sink)
  unfolding ensure_connected
  ensure_connected-again sink connected = elim (Option-cases sink.exchange) [
    | inl absent ↦ absurd (ground (arith, connected, absent))
    | inr (exchange, held) ↦ rw held refl
  ]

  -- An enabled sink connects and delivers.
  publish_message-deliver :
      (routing_key : String) (m : M)
      → settings.rabbitmq_enabled ≡ true
      → publish_message broker settings routing_key m
        ≡ ensure_connected broker settings >> deliver broker settings (broker.dumps m) routing_key
  unfolding publish_message
  publish_message-deliver routing_key m enabled = rw enabled refl

  -- The first message connects; the others are delivered, if they are once the sink is connected.
  first-ensure_connected :
      (routing_key : String) (m : M) (messages : List M) (sink : RabbitMqSink W)
      → settings.rabbitmq_enabled ≡ true
      → ((s : RabbitMqSink W)
          → is_some s.exchange ≡ true
          → publish_all routing_key messages s ≡ deliver_all routing_key messages s)
      → publish_all routing_key (m ∷ messages) sink
        ≡ (ensure_connected broker settings >> deliver_all routing_key (m ∷ messages)) sink
  first-ensure_connected routing_key m messages sink enabled others =
      let first = deliver broker settings (broker.dumps m) routing_key in
      ap (λ action. (action >> publish_all routing_key messages) sink)
        (publish_message-deliver routing_key m enabled)
      ∙ then_assoc (ensure_connected broker settings) first (publish_all routing_key messages) sink
      ∙ then-same (ensure_connected broker settings) (first >> publish_all routing_key messages)
          (first >> deliver_all routing_key messages) sink
          λ s opened.
            then-same first (publish_all routing_key messages) (deliver_all routing_key messages) s
              λ s' sent. others s' (
                ap is_some (
                  ap (λ r. r.1.exchange) (sym sent)
                  ∙ deliver-exchange (broker.dumps m) routing_key s)
                ∙ ensure_connected-is_some sink s opened)

  publish_all-deliver_all :
      (routing_key : String) (messages : List M) (sink : RabbitMqSink W)
      → settings.rabbitmq_enabled ≡ true
      → is_some sink.exchange ≡ true
      → publish_all routing_key messages sink ≡ deliver_all routing_key messages sink
  publish_all-deliver_all routing_key [] sink enabled connected = refl
  publish_all-deliver_all routing_key (m ∷ messages) sink enabled connected =
      first-ensure_connected routing_key m messages sink enabled
        (λ s held. publish_all-deliver_all routing_key messages s enabled held)
      ∙ ap (λ r. continue r.0 (λ _. deliver_all routing_key (m ∷ messages)) r.1)
          (ensure_connected-again sink connected)

  -- With RabbitMQ enabled, to publish one message or more is to connect the sink once, if it is not
  -- connected, and then to deliver each message over its exchange, in their order; an exception of
  -- any of these steps ends both in the same way.
  pub publish_all-ensure_connected :
      (routing_key : String) (m : M) (messages : List M) (sink : RabbitMqSink W)
      → settings.rabbitmq_enabled ≡ true
      → publish_all routing_key (m ∷ messages) sink
        ≡ (ensure_connected broker settings >> deliver_all routing_key (m ∷ messages)) sink
  publish_all-ensure_connected routing_key m messages sink enabled =
      first-ensure_connected routing_key m messages sink enabled
        (λ s held. publish_all-deliver_all routing_key messages s enabled held)
