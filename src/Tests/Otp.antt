-- ===== src/Tests/Otp.antt =====
-- Events for services/brain-otp-guard/src/brain_otp_guard/runner.py: a call that is active when a
-- bank's text comes, twice.
use fraudnet.Prelude.{◌≤◌, ◌+◌, ◌≡◌, refl, true, none, some, [], ◌∷◌}
use fraudnet.Prelude.Dict
use fraudnet.Prelude.StringSet
use fraudnet.Prelude.Text.{has_text}
use fraudnet.OtpGuard.Detector.{detect_otp}
use fraudnet.Schemas.{VoiceEvent, VoiceKind, SmsEvent, SmsKind}
use fraudnet.OtpGuard.Registry.{ActiveCall, start, get, should_suppress}
use fraudnet.OtpGuard.Runner.{
  Config, Event, OtpSignal, feed, run, on_voice, on_sms, new_guard, raise_signal, build_signal,
  is_inbound_otp, detected,
}
use fraudnet.OtpGuard.Calls.{last_call, on_sms-last_call}
use fraudnet.OtpGuard.Windows.{IsSpaced, run-IsSpaced}

abbrev config : Config
config = record {
  ttl_ms = 900000;
  window = 300;
  bank_short_codes = "MTNBANK" ∷ [];
  lower = λ s. s;
  upper = λ s. s;
  find_code = λ s. some "123456";
}

abbrev ringing : VoiceEvent
ringing = record {
  event_id = "v";
  event_ts_ms = 1000;
  ingest_ts_ms = 1000;
  tenant_id = "mtn-ghana";
  kind = VoiceKind.call_start;
  caller = "+233200000001";
  callee = some "+233200000002";
  imei = none;
  duration_s = none;
}

abbrev code_text : SmsEvent
code_text = record {
  event_id = "s";
  event_ts_ms = 2000;
  ingest_ts_ms = 2000;
  tenant_id = "mtn-ghana";
  kind = SmsKind.mt;
  sender = "MTNBANK";
  recipient = "+233200000002";
  body = some "your otp is 123456";
  template_hash = none;
  short_code = some "MTNBANK";
  smsc_id = none;
}

abbrev sent : OtpSignal
sent = build_signal 2 code_text "+233200000001" (detected config code_text)

on_sms-last_call_example :
    (is_inbound_otp config code_text ≡ true)
    × (call : ActiveCall) × (last_call "+233200000002" none (Event.voice ringing ∷ []) ≡ some call)
    × (2000 ≤ call.started_at_ms + 900000)
    × (sent ≡ build_signal 2 code_text call.caller (detected config code_text))
unfolding run feed on_voice on_sms new_guard detect_otp StringSet.member has_text raise_signal get
    Dict.lookup start Dict.insert should_suppress
on_sms-last_call_example =
    on_sms-last_call config (Event.voice ringing ∷ []) 2000 2 code_text sent refl

run-IsSpaced_example :
    IsSpaced 300
      (run config new_guard (
        Event.voice ringing ∷ Event.sms 2000 2 code_text ∷ Event.sms 3000 3 code_text ∷ [])).signals
run-IsSpaced_example =
    run-IsSpaced config
      (Event.voice ringing ∷ Event.sms 2000 2 code_text ∷ Event.sms 3000 3 code_text ∷ [])
