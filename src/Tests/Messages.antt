-- ===== src/Tests/Messages.antt =====
-- Messages of which one is not decoded, one fails in the handler and one has a bad key, for
-- packages/kafka-client/src/fraudnet/kafka/consumer.py.
use fraudnet.Prelude.{
  ℕ, suc, ◌≡◌, refl, String, Bool, true, not, Option, none, some, List, [], ◌∷◌, ◌==◌,
  if◌then◌else◌,
}
use fraudnet.Kafka.Consumer.{
  Message, Decoding, decoded, refused, delivered, Progress, going, stopped, new_consumer, run,
  dispatch, dispatch_decoded, dispatch_payload, after_handler, send_dead, commit,
}
use fraudnet.Kafka.Progress.{Followed, run-IsProgress}

abbrev decode : String → Decoding String
decode raw = if raw == "junk" then refused else decoded raw

abbrev utf8 : String → Option String
utf8 raw = if raw == "bytes" then none else some raw

abbrev handler : ℕ → Option String → String → ℕ × Bool
handler n k payload = (suc n, not (payload == "bad"))

abbrev message : ℕ → String → String → Message
message offset k raw = record {
  offset = offset;
  raw_key = some k;
  raw_value = raw;
  dead_letter = delivered;
  commits = true;
}

abbrev messages : List Message
messages =
    message 7 "a" "junk"
    ∷ message 8 "b" "bad"
    ∷ message 9 "c" "fine"
    ∷ message 10 "bytes" "fine"
    ∷ message 11 "d" "fine"
    ∷ []

abbrev offsets : Progress ℕ → List ℕ
offsets (going c) = c.committed
offsets (stopped c) = c.committed

stops_at_key :
    offsets (run "voice.events.v1" true decode utf8 handler (going (new_consumer 0)) messages)
    ≡ 7 ∷ 8 ∷ 9 ∷ []
unfolding run dispatch dispatch_decoded dispatch_payload after_handler send_dead commit new_consumer
stops_at_key = refl

run-IsProgress_example :
    Followed "voice.events.v1" true decode utf8 handler
      (new_consumer 0)
      messages
      (run "voice.events.v1" true decode utf8 handler (going (new_consumer 0)) messages)
run-IsProgress_example = run-IsProgress "voice.events.v1" true decode utf8 handler 0 messages
