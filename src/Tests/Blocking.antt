-- ===== src/Tests/Blocking.antt =====
-- Decisions about a domain and about an OTP, for
-- services/action-tier1/src/action_tier1/actuators.py.
use fraudnet.Prelude.{◌≡◌, ◌↔◌, refl, String, true, false, some, none, List, [], ◌∷◌, ◌==◌}
use fraudnet.Prelude.Dict
use fraudnet.Prelude.Int.{pos}
use fraudnet.Prelude.StringSet
use fraudnet.Domain.Labels.{suffix_match, label_match, ends_with, parents}
use fraudnet.Schemas.{
  LatencyTier, Severity, EntityKind, Primitive, SignalEvent, DecisionDispatched, entity_value,
}
use fraudnet.Decisions.Policy.{Policy, DispatchOutcome}
use fraudnet.Decisions.Dispatcher.{Call, signal_decision}
use fraudnet.ActionTier1.Actuators.{
  HttpActuator, Reply, AddReply, executed, payload, execute_sinkhole, is_locally_allow_listed,
  register, push_sinkhole,
}
use fraudnet.ActionTier1.Guards.{Accepted, execute_sinkhole-protected, execute_sinkhole-Accepted}
use fraudnet.ActionTier1.OtpHold.{otp_hold-caller}

abbrev block : String → DecisionDispatched
block domain = record {
  event_id = "dec_1";
  event_ts_ms = 1;
  ingest_ts_ms = 1;
  source = "decisions:url.phishing";
  tenant_id = "mtn-ghana";
  decision_id = "dec_2";
  tier = LatencyTier.tier1_inline;
  action = "url.block";
  subject = record { kind = EntityKind.url; id = domain };
  severity = Severity.high;
  score = none;
  policy_id = "p";
  policy_version = "1";
  suppression_key = none;
  metadata = [];
}

abbrev clean : String → String
clean s = s

abbrev allowed : List String
allowed = "mtn.com.gh" ∷ []

abbrev fine : AddReply
fine = AddReply.answered 200 true false

abbrev stored : Reply
stored = Reply.status 201

execute_sinkhole-protected_example :
    ((execute_sinkhole clean allowed "dns" true fine stored (block "pay.mtn.com.gh")).1 ≡ [])
    × ¬ (
        (execute_sinkhole clean allowed "dns" true fine stored (block "pay.mtn.com.gh")).0.outcome
        ≡ executed)
unfolding suffix_match StringSet.member ends_with
execute_sinkhole-protected_example =
    execute_sinkhole-protected clean allowed "dns" true fine stored (block "pay.mtn.com.gh") refl
      refl

execute_sinkhole-Accepted_example :
    ((execute_sinkhole clean allowed "dns" true fine stored (block "bad.example.com")).0.outcome
      ≡ executed)
    ↔ (((entity_value EntityKind.url == "url") ≡ true)
        × (is_locally_allow_listed clean allowed "bad.example.com" ≡ false)
        × Accepted true fine stored)
execute_sinkhole-Accepted_example =
    execute_sinkhole-Accepted clean allowed "dns" true fine stored (block "bad.example.com")

-- A domain that url-intel refuses, for another reason than its allow-list, counts as sinkholed.
refused_executed :
    (execute_sinkhole clean allowed "dns" true
      (AddReply.answered 200 false false)
      stored
      (block "bad.example.com")).0.outcome
    ≡ executed
unfolding execute_sinkhole is_locally_allow_listed register push_sinkhole label_match parents
    StringSet.member
refused_executed = refl

abbrev policy : Policy
policy = record {
  id = "p";
  version = "1";
  rules = [];
  default = record {
    action = "log";
    tier = LatencyTier.tier3_investigation;
    suppression_window_s = pos 0;
  };
}

abbrev call : Call
call = record {
  now_ms = 1;
  event_uuid = "a";
  decision_uuid = "b";
  audit_delivered = true;
  tier_delivered = true;
  claim_ms = none;
}

abbrev signal : SignalEvent
signal = record {
  event_id = "sig_1";
  tenant_id = "mtn-ghana";
  signal_kind = "otp.during_call";
  subject = record { kind = EntityKind.number; id = "+233200000002" };
  score = record { value = 97; model_id = "m"; model_version = "1"; computed_at_ms = 1 };
  severity = Severity.critical;
  evidence = ("caller", Primitive.str "+233200000001") ∷ [];
  suppression_key = none;
}

abbrev hold : DispatchOutcome
hold = record {
  rule_id = "otp";
  action = "otp.hold_and_alert";
  tier = LatencyTier.tier1_inline;
  suppression_window_s = pos 300;
}

otp_hold-caller_example :
    Dict.lookup "caller" (
      payload
        (HttpActuator.otp_hold 60)
        (signal_decision (λ s. s) (λ t. true) policy call signal hold))
    ≡ some (Primitive.str "")
otp_hold-caller_example = otp_hold-caller (λ s. s) (λ t. true) policy call signal hold 60
