-- ===== src/Rabbit.antt =====
-- app/plugins/sinks/rabbitmq_sink.py: RabbitMQSink. aio_pika, the rate limiter and the JSON text are
-- the fields of a record; a connection, a channel and an exchange are handles.
pub mod Connection
pub mod Published
use stock_tracker_data_colle.Base.{
  ℕ, String, Bool, true, false, not, Option, none, some, List, [], ◌∷◌, lookup, if◌then◌else◌,
  format,
}
use stock_tracker_data_colle.Base.Texts.{lower}
use stock_tracker_data_colle.Errors.{sink_error, foreign_error}
use stock_tracker_data_colle.Exec.{Outcome, ok, raised, Exec, pure, raise, modify, ◌>>=◌, ◌>>◌}
use stock_tracker_data_colle.Config.{Settings}

-- aio_pika.ExchangeType
pub data ExchangeType : Type 0 where
  topic direct fanout headers : ExchangeType

abbrev pub ex_map : List (String × ExchangeType)
ex_map = ("topic", topic) ∷ ("direct", direct) ∷ ("fanout", fanout) ∷ ("headers", headers) ∷ []

-- What the sink calls, on the state W of the broker and the limiter, for models of the type M.
pub record Broker (W M : Type 0) : Type 0 where
  -- rate_limiter.acquire(service)
  pub acquire : String → Exec W (Unit {0})
  -- aio_pika.connect_robust(url)
  pub connect_robust : String → Exec W ℕ
  -- connection.channel(publisher_confirms=True, on_return_raises=True)
  pub channel : ℕ → Exec W ℕ
  -- channel.declare_exchange(name, type, durable=True)
  pub declare_exchange : ℕ → String → ExchangeType → Exec W ℕ
  -- exchange.publish(Message(body, persistent), routing_key)
  pub publish : ℕ → String → String → Exec W (Unit {0})
  pub close_channel : ℕ → Exec W (Unit {0})
  pub close_connection : ℕ → Exec W (Unit {0})
  -- json.dumps of model_dump(mode="json"), of one model and of a list
  pub dumps : M → String
  pub dumps_all : List M → String

-- The fields of the sink, beside the state of the broker.
pub record RabbitMqSink (W : Type 0) : Type 0 where
  pub connection : Option ℕ
  pub channel : Option ℕ
  pub exchange : Option ℕ
  pub world : W

abbrev pub is_nil : {A : Type 0} → List A → Bool
is_nil [] = true
is_nil (x ∷ xs) = false

module _ {W : Type 0} where
  -- an action of the broker
  abbrev pub on_broker : {A : Type 0} → Exec W A → Exec (RabbitMqSink W) A
  on_broker action sink = let (r, world) = action sink.world in (r, record sink { world = world })

module _ {W M : Type 0} (broker : Broker W M) (settings : Settings) where
  abbrev pub exchange_type : ExchangeType
  exchange_type = elim (lookup (lower settings.rabbitmq_exchange_type) ex_map) [
    | none ↦ topic
    | some ex_type ↦ ex_type
  ]

  -- the connection and its channel
  unfoldable pub open_channel : Exec (RabbitMqSink W) ℕ
  open_channel = do
    on_broker (broker.acquire "rabbitmq")
    connection ← on_broker (broker.connect_robust settings.rabbitmq_url)
    modify λ sink. record sink { connection = some connection }
    channel ← on_broker (broker.channel connection)
    modify λ sink. record sink { channel = some channel }
    pure channel

  -- the body of _ensure_connected without an exchange
  unfoldable pub connect : Exec (RabbitMqSink W) (Unit {0})
  connect = do
    channel ← open_channel
    exchange ← on_broker (broker.declare_exchange channel settings.rabbitmq_exchange exchange_type)
    modify λ sink. record sink { exchange = some exchange }

  -- _ensure_connected
  unfoldable pub ensure_connected : Exec (RabbitMqSink W) (Unit {0})
  ensure_connected sink = elim sink.exchange [ some exchange ↦ (ok tt, sink) | none ↦ connect sink ]

  -- The exchange is there, by the assertion, and takes the message.
  unfoldable pub deliver : String → String → Exec (RabbitMqSink W) (Unit {0})
  deliver body routing_key sink = elim sink.exchange [
    | none ↦ (raised (foreign_error "AssertionError"), sink)
    | some exchange ↦
        (on_broker (broker.acquire "rabbitmq")
            >> on_broker (broker.publish exchange body routing_key))
          sink
  ]

  -- if not rabbitmq_enabled: raise …
  abbrev pub guarded : Exec (RabbitMqSink W) (Unit {0}) → Exec (RabbitMqSink W) (Unit {0})
  guarded body =
      if not settings.rabbitmq_enabled
      then raise (sink_error "RabbitMQSink called while rabbitmq_enabled is False")
      else body

  -- send_batch
  unfoldable pub send_batch : String → List M → Exec (RabbitMqSink W) (Unit {0})
  send_batch entity items = guarded (
      if is_nil items
      then pure tt
      else ensure_connected
        >> deliver (broker.dumps_all items) (format ("datacollector." ∷ entity ∷ [])))

  -- publish_message
  unfoldable pub publish_message : String → M → Exec (RabbitMqSink W) (Unit {0})
  publish_message routing_key message =
      guarded (ensure_connected >> deliver (broker.dumps message) routing_key)

  -- the two blocks of close
  unfoldable pub drop_channel : Exec (RabbitMqSink W) (Unit {0})
  drop_channel sink = elim sink.channel [
    | none ↦ (ok tt, sink)
    | some channel ↦
        (on_broker (broker.close_channel channel) >> modify λ s. record s { channel = none }) sink
  ]

  unfoldable pub drop_connection : Exec (RabbitMqSink W) (Unit {0})
  drop_connection sink = elim sink.connection [
    | none ↦ (ok tt, sink)
    | some connection ↦
        (on_broker (broker.close_connection connection)
            >> modify λ s. record s { connection = none })
          sink
  ]

  -- close
  unfoldable pub close : Exec (RabbitMqSink W) (Unit {0})
  close = drop_channel >> drop_connection >> modify λ sink. record sink { exchange = none }
