-- ===== src/Tests/Graph.antt =====
-- Events, operations and steps for services/stream-graph and
-- packages/graph-client/src/fraudnet/graph/batch_writer.py.
use fraudnet.Prelude.{
  ◌≤◌, ◌≡◌, String, Bool, true, false, none, some, List, [], ◌∷◌, ◌++◌, map, length, All,
}
use fraudnet.Schemas.{
  VoiceEvent, VoiceKind, SmsEvent, SmsKind, DataEvent, DataKind, MoMoEvent, MoMoEventType,
  CounterpartyKind,
}
use fraudnet.StreamGraph.Translate.{
  GraphOp, upsert_node, number, translate_voice, translate_sms, translate_data, translate_momo,
}
use fraudnet.StreamGraph.Closed.{IsClosed}
use fraudnet.StreamGraph.Endpoints.{translate-IsClosed}
use fraudnet.StreamGraph.Writer
use fraudnet.StreamGraph.Writer.{Op, GraphMutation, Writer, Step, new_writer}
use fraudnet.StreamGraph.Accounting.{accounted, run-IsAccounted}
use fraudnet.StreamGraph.Runner.{Origin, mutation_id, dispatch}
use fraudnet.StreamGraph.Control.{before_failure, all_delivered, record_of, dispatch-published}

abbrev call : VoiceEvent
call = record {
  event_id = "v";
  event_ts_ms = 1000;
  ingest_ts_ms = 1000;
  tenant_id = "mtn-ghana";
  kind = VoiceKind.call_start;
  caller = "+233200000001";
  callee = some "+233200000002";
  imei = some "356938035643809";
  duration_s = none;
}

abbrev text : SmsEvent
text = record {
  event_id = "s";
  event_ts_ms = 2000;
  ingest_ts_ms = 2000;
  tenant_id = "mtn-ghana";
  kind = SmsKind.mo;
  sender = "+233200000001";
  recipient = "+233200000002";
  body = none;
  template_hash = some "aa";
  short_code = none;
  smsc_id = none;
}

abbrev answer : DataEvent
answer = record {
  event_id = "d";
  event_ts_ms = 3000;
  ingest_ts_ms = 3000;
  kind = DataKind.dns_response;
  msisdn = some "+233200000001";
  domain = some "example.com";
  rdata = some "10.0.0.1";
  bytes_up = none;
  bytes_down = none;
}

abbrev cash_out : MoMoEvent
cash_out = record {
  event_id = "m";
  event_ts_ms = 4000;
  ingest_ts_ms = 4000;
  kind = MoMoEventType.cash_out;
  sender_wallet_id = some "w1";
  recipient_wallet_id = none;
  sender_msisdn = some "+233200000001";
  recipient_msisdn = none;
  amount_minor = 500;
  counterparty_kind = CounterpartyKind.bank;
  counterparty_account_hash = some "acc";
}

translate-IsClosed_example :
    IsClosed [] (translate_voice call)
    × IsClosed [] (translate_sms text)
    × IsClosed [] (translate_data (λ s. true) answer)
    × IsClosed [] (translate_momo cash_out)
translate-IsClosed_example = translate-IsClosed (λ s. true) call text answer cash_out

abbrev write : List GraphMutation → GraphMutation → List GraphMutation
write g m = g ++ m ∷ []

abbrev node : String → GraphMutation
node id = record { op = Op.upsert_node; id = id; src = ""; dst = ""; properties = [] }

abbrev steps : List Step
steps =
    Step.append (node "a")
    ∷ Step.append (node "b")
    ∷ Step.append (node "c")
    ∷ Step.take
    ∷ Step.advance 0 true
    ∷ Step.advance 0 false
    ∷ []

run-IsAccounted_example :
    (accounted (Writer.run write 2 (new_writer []) steps) ≡ 3)
    × (length (Writer.run write 2 (new_writer []) steps).buf ≤ 2)
run-IsAccounted_example = run-IsAccounted write 2 [] steps

abbrev origin : Origin
origin = record {
  event_id = "v";
  event_ts_ms = 1000;
  ingest_ts_ms = 1000;
  source_topic = "voice.events.v1";
}

-- The same node twice, of which the second send fails
abbrev ops : List (GraphOp × Bool)
ops =
    (upsert_node (number "+233200000001"), true)
    ∷ (upsert_node (number "+233200000001"), false)
    ∷ (upsert_node (number "+233200000002"), true)
    ∷ []

dispatch-published_example :
    ((dispatch write 2 origin ops (new_writer []) []).2
      ≡ map (record_of origin) (before_failure ops))
    × ((dispatch write 2 origin ops (new_writer []) []).0 ≡ all_delivered ops)
    × All
        (λ r. r.1.event_id ≡ mutation_id "v" Op.upsert_node)
        (dispatch write 2 origin ops (new_writer []) []).2
dispatch-published_example = dispatch-published write 2 origin ops (new_writer [])
