-- ===== src/Kafka/Consumer.antt =====
-- packages/kafka-client/src/fraudnet/kafka/consumer.py (`_dispatch`) and dlq.py (`send`). `decode`
-- stands for the Avro deserializer with the model's validation, `utf8` for the decoding of a key, none
-- where it raises, and `handler` for the service's handler, over a state of its own, with false where
-- it raises an `Exception`. What the broker's client does with a dead letter and with a commit comes
-- with the message.
use fraudnet.Prelude.{
  ℕ, suc, String, Bool, true, false, Option, none, some, List, [], ◌∷◌, ◌++◌, ◌==◌, if◌then◌else◌,
}

pub data Reason : Type 0 where
  decode_error handler_error : Reason

-- A value is decoded, or refused with an exception that is caught (`ValidationError`,
-- `KafkaException`, `ValueError`), or another exception escapes.
pub data Decoding (T : Type 0) : Type 0 where
  decoded : T → Decoding T
  refused escaped : Decoding T

-- A dead letter is reported as delivered, or as lost with a `DeliveryError`; or `produce` raises, as
-- with a `BufferError`; or its one poll serves no report, and nothing else ends the wait for it.
pub data Produced : Type 0 where
  delivered lost unsent unreported : Produced

-- A message of the broker, with what becomes of a dead letter of it and whether the client takes its
-- commit.
pub record Message : Type 0 where
  pub offset : ℕ
  pub raw_key : Option String
  pub raw_value : String
  pub dead_letter : Produced
  pub commits : Bool

pub record DeadLetter : Type 0 where
  pub source_topic : String
  pub reason : Reason
  pub raw_key : Option String
  pub raw_value : String

-- The consumer with the state of its handler, its counters, the dead letters that were taken, and
-- the offsets committed.
pub record Consumer (S : Type 0) : Type 0 where
  pub state : S
  pub received : ℕ
  pub decode_errors : ℕ
  pub handler_errors : ℕ
  pub dead : List DeadLetter
  pub committed : List ℕ

-- The consumer goes on, or an exception has left `_dispatch` and with it `run`, or it waits for good.
pub data Progress (S : Type 0) : Type 0 where
  going stopped : Consumer S → Progress S

-- `msg.key().decode("utf-8") if msg.key() else None`
pub data Key : Type 0 where
  key : Option String → Key
  not_utf8 : Key

abbrev pub key_or : Option String → Key
key_or none = not_utf8
key_or (some text) = key (some text)

abbrev pub read_key : (String → Option String) → Option String → Key
read_key utf8 none = key none
read_key utf8 (some raw) = if raw == "" then key none else key_or (utf8 raw)

module _ {S T : Type 0} (topic : String) (has_dlq : Bool) (decode : String → Decoding T)
    (utf8 : String → Option String) (handler : S → Option String → T → S × Bool) where
  abbrev pub letter : Message → Reason → DeadLetter
  letter m reason = record {
    source_topic = topic;
    reason = reason;
    raw_key = m.raw_key;
    raw_value = m.raw_value;
  }

  -- `DLQRouter.send`
  abbrev pub send : Message → Reason → Consumer S → Produced → Progress S
  send m reason c delivered = going (record c { dead = c.dead ++ letter m reason ∷ [] })
  send m reason c lost = going c
  send m reason c unsent = stopped c
  send m reason c unreported = stopped c

  -- `if self._dlq is not None: await self._dlq.send(...)`
  unfoldable pub send_dead : Message → Reason → Consumer S → Progress S
  send_dead m reason c = if has_dlq then send m reason c m.dead_letter else going c

  unfoldable pub commit : Message → Progress S → Progress S
  commit m (stopped c) = stopped c
  commit m (going c) =
      if m.commits then going (record c { committed = c.committed ++ m.offset ∷ [] }) else stopped c

  -- What an outcome of the handler is counted as: `true` where it did not raise.
  unfoldable pub after_handler : Message → Consumer S → S × Bool → Progress S
  after_handler m c (state, true) = going (record c { state = state; received = suc c.received })
  after_handler m c (state, false) =
      send_dead m handler_error (record c { state = state; handler_errors = suc c.handler_errors })

  -- The part after the decoding, by what the key is read to
  unfoldable pub dispatch_payload : Consumer S → Message → T → Key → Progress S
  dispatch_payload c m payload not_utf8 = stopped c
  dispatch_payload c m payload (key k) = commit m (after_handler m c (handler c.state k payload))

  -- `_dispatch`, by what the message was decoded to
  unfoldable pub dispatch_decoded : Consumer S → Message → Decoding T → Progress S
  dispatch_decoded c m escaped = stopped c
  dispatch_decoded c m refused =
      commit m (send_dead m decode_error (record c { decode_errors = suc c.decode_errors }))
  dispatch_decoded c m (decoded payload) = dispatch_payload c m payload (read_key utf8 m.raw_key)

  unfoldable pub dispatch : Consumer S → Message → Progress S
  dispatch c m = dispatch_decoded c m (decode m.raw_value)

  -- `run`, over the messages that the polls return, until it stops
  unfoldable pub run : Progress S → List Message → Progress S
  run p [] = p
  run (stopped c) (m ∷ ms) = stopped c
  run (going c) (m ∷ ms) = run (dispatch c m) ms

unfoldable pub new_consumer : {S : Type 0} → S → Consumer S
new_consumer s = record {
  state = s;
  received = 0;
  decode_errors = 0;
  handler_errors = 0;
  dead = [];
  committed = [];
}
