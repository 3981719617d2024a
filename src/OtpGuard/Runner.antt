-- ===== src/OtpGuard/Runner.antt =====
-- services/brain-otp-guard/src/brain_otp_guard/runner.py: the two handlers, over the in-memory
-- stores. The clocks' readings come with an SMS event. A send is taken to be delivered. Of a signal
-- the model keeps the fields that rest on the event and the state; the confidence in its evidence is
-- the field `confidence`.
use fraudnet.Prelude.{
  ℕ, String, Bool, true, false, ◌&&◌, Option, none, some, List, [], ◌∷◌, ◌++◌, length,
  if◌then◌else◌, truthy,
}
use fraudnet.Prelude.Dict.{Dict}
use fraudnet.Prelude.Text.{concat}
use fraudnet.Schemas.{
  Primitive, EntityKind, Severity, Subject, VoiceEvent, VoiceKind, SmsEvent, SmsKind,
}
use fraudnet.OtpGuard.Detector.{OtpDetectionResult, detect_otp}
use fraudnet.OtpGuard.Registry.{ActiveCall, start, end, get, should_suppress}

-- What the runner sends.
pub record OtpSignal : Type 0 where
  pub sent_at : ℕ
  pub tenant_id : String
  pub signal_kind : String
  pub subject : Subject
  pub severity : Severity
  pub caller : String
  pub confidence : ℕ
  pub evidence : Dict Primitive
  pub suppression_key : String

-- The configuration.
pub record Config : Type 0 where
  pub ttl_ms : ℕ
  pub window : ℕ
  pub bank_short_codes : List String
  pub lower : String → String
  pub upper : String → String
  pub find_code : String → Option String

-- The two stores, and the signals sent, the last one first.
pub record OtpGuard : Type 0 where
  pub calls : Dict ActiveCall
  pub seen : Dict ℕ
  pub signals : List OtpSignal

pub data Event : Type 0 where
  voice : VoiceEvent → Event
  sms : ℕ → ℕ → SmsEvent → Event

unfoldable pub calls_after :
    VoiceEvent → VoiceKind → Option String → Dict ActiveCall → Dict ActiveCall
calls_after ev kind none calls = calls
calls_after ev VoiceKind.call_start (some callee) calls =
    start callee ev.caller ev.event_ts_ms calls
calls_after ev VoiceKind.call_end (some callee) calls = end callee calls
calls_after ev _ (some callee) calls = calls

-- `_on_voice`
unfoldable pub on_voice : VoiceEvent → OtpGuard → OtpGuard
unfolding calls_after
on_voice ev g = record g { calls = calls_after ev ev.kind ev.callee g.calls }

-- `f"{ev.tenant_id}:number:{ev.recipient}:{SIGNAL_KIND}"`
unfoldable pub key_of : SmsEvent → String
key_of ev = concat (ev.tenant_id ∷ ":number:" ∷ ev.recipient ∷ ":" ∷ "otp.during_call" ∷ [])

abbrev pub text_entry : String → Option String → Dict Primitive
text_entry k none = []
text_entry k (some v) = (k, Primitive.str v) ∷ []

-- `_build_signal`
unfoldable pub build_signal : ℕ → SmsEvent → String → OtpDetectionResult → OtpSignal
build_signal now ev caller result = record {
  sent_at = now;
  tenant_id = ev.tenant_id;
  signal_kind = "otp.during_call";
  subject = record { kind = EntityKind.number; id = ev.recipient };
  severity = Severity.critical;
  caller = caller;
  confidence = result.confidence;
  evidence =
      (("caller", Primitive.str caller)
        ∷ ("sms_sender", Primitive.str ev.sender)
        ∷ ("keyword_hits", Primitive.int (length result.matched_keywords))
        ∷ [])
      ++ (text_entry "short_code" (truthy result.matched_short_code)
          ++ text_entry "smsc_id" (truthy ev.smsc_id));
  suppression_key = key_of ev;
}

-- The part of `_on_sms` after the lookup of the active call.
unfoldable pub raise_signal :
    Config → ℕ → SmsEvent → OtpDetectionResult → Option ActiveCall → OtpGuard → OtpGuard
raise_signal cfg now ev result none g = g
raise_signal cfg now ev result (some call) g =
    let (suppressed, seen) = should_suppress cfg.window now (key_of ev) g.seen in
    if suppressed
    then record g { seen = seen }
    else record g { seen = seen; signals = build_signal now ev call.caller result ∷ g.signals }

abbrev pub is_inbound : SmsKind → Bool
is_inbound SmsKind.mt = true
is_inbound _ = false

abbrev pub detected : Config → SmsEvent → OtpDetectionResult
detected cfg ev =
    detect_otp cfg.lower cfg.upper cfg.find_code ev.body ev.short_code cfg.bank_short_codes

-- An inbound text that the detector takes for an OTP.
abbrev pub is_inbound_otp : Config → SmsEvent → Bool
is_inbound_otp cfg ev = is_inbound ev.kind && (detected cfg ev).is_otp

-- `_on_sms`, with the readings of the registry's clock and of the suppression store's
unfoldable pub on_sms : Config → ℕ → ℕ → SmsEvent → OtpGuard → OtpGuard
on_sms cfg now_ms now ev g =
    let found = get cfg.ttl_ms now_ms ev.recipient g.calls in
    if is_inbound_otp cfg ev
    then raise_signal cfg now ev (detected cfg ev) found.0 (record g { calls = found.1 })
    else g

unfoldable pub feed : Config → OtpGuard → Event → OtpGuard
feed cfg g (voice ev) = on_voice ev g
feed cfg g (sms now_ms now ev) = on_sms cfg now_ms now ev g

unfoldable pub run : Config → OtpGuard → List Event → OtpGuard
run cfg g [] = g
run cfg g (e ∷ es) = run cfg (feed cfg g e) es

unfoldable pub new_guard : OtpGuard
new_guard = record { calls = []; seen = []; signals = [] }
