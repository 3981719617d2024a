-- ===== src/OtpGuard/Calls.antt =====
-- The signals of services/brain-otp-guard/src/brain_otp_guard/runner.py against what the voice
-- events told of the recipient.
use mathlib.Core.List.{head-eq_of_cons-eq}
use fraudnet.Prelude.{
  ℕ, ◌+◌, ◌≤◌, ◌≡◌, ◌⊎◌, ◌≢◌, ◌∙◌, inl, inr, refl, sym, ap, String, true, false, Option, none, some,
  List, [], ◌∷◌, length, arith, ltb, ◌==◌, if◌then◌else◌, Bool-cases, Option-cases,
}
use fraudnet.Prelude.Dict
use fraudnet.Prelude.Dict.{Dict, lookup-insert, lookup-erase}
use fraudnet.Schemas.{VoiceEvent, VoiceKind, SmsEvent}
use fraudnet.OtpGuard.Detector.{OtpDetectionResult}
use fraudnet.OtpGuard.Registry.{ActiveCall, start, end, get, should_suppress}
use fraudnet.OtpGuard.Runner.{
  OtpSignal, Config, OtpGuard, Event, calls_after, on_voice, build_signal, raise_signal, detected,
  is_inbound_otp, on_sms, feed, run, new_guard, key_of,
}

abbrev pub told :
    String → VoiceEvent → VoiceKind → Option String → Option ActiveCall → Option ActiveCall
told r ev kind none last = last
told r ev VoiceKind.call_start (some c) last =
    if c == r
    then some (record { callee = c; caller = ev.caller; started_at_ms = ev.event_ts_ms })
    else last
told r ev VoiceKind.call_end (some c) last = if c == r then none else last
told r ev _ (some c) last = last

-- The call that the last start or end of a call to `r` leaves active.
abbrev pub last_call : String → Option ActiveCall → List Event → Option ActiveCall
last_call r last [] = last
last_call r last (Event.voice ev ∷ es) = last_call r (told r ev ev.kind ev.callee last) es
last_call r last (Event.sms _ _ ev ∷ es) = last_call r last es

-- A registry holds for `r` that call or nothing.
abbrev Agrees : String → Dict ActiveCall → Option ActiveCall → Type 0
Agrees r calls last = (Dict.lookup r calls ≡ none) ⊎ (Dict.lookup r calls ≡ last)

calls_after-Agrees :
    (r : String) (ev : VoiceEvent) (kind : VoiceKind) (callee : Option String)
    (calls : Dict ActiveCall) (last : Option ActiveCall)
    → Agrees r calls last
    → Agrees r (calls_after ev kind callee calls) (told r ev kind callee last)
unfolding calls_after start end
calls_after-Agrees r ev kind none calls last h = h
calls_after-Agrees r ev VoiceKind.call_start (some c) calls last h =
    rw lookup-insert (elim (Bool-cases (c == r)) [ inl e ↦ inr (rw e refl) | inr e ↦ rw e h ])
calls_after-Agrees r ev VoiceKind.call_end (some c) calls last h =
    rw lookup-erase (elim (Bool-cases (c == r)) [ inl e ↦ inl (rw e refl) | inr e ↦ rw e h ])
calls_after-Agrees r ev VoiceKind.registration (some c) calls last h = h
calls_after-Agrees r ev VoiceKind.handover (some c) calls last h = h

erase-Agrees :
    (r c : String) (calls : Dict ActiveCall) (last : Option ActiveCall)
    → Agrees r calls last
    → Agrees r (Dict.erase c calls) last
erase-Agrees r c calls last h =
    rw lookup-erase (elim (Bool-cases (c == r)) [ inl e ↦ inl (rw e refl) | inr e ↦ rw e h ])

get-Agrees :
    (ttl_ms now_ms : ℕ) (r c : String) (calls : Dict ActiveCall) (last : Option ActiveCall)
    → Agrees r calls last
    → Agrees r (get ttl_ms now_ms c calls).1 last
unfolding get
get-Agrees ttl_ms now_ms r c calls last h = elim (Option-cases (Dict.lookup c calls)) [
  | inl e ↦ rw (get, e) h
  | inr (call, e) ↦ elim (Bool-cases (ltb (call.started_at_ms + ttl_ms) now_ms)) [
    | inl late ↦ rw (get, e, late) (erase-Agrees r c calls last h)
    | inr live ↦ rw (get, e, live) h
  ]
]

-- A live answer is the call that is kept, within the time to live.
get-live :
    (ttl_ms now_ms : ℕ) (c : String) (calls : Dict ActiveCall) (call : ActiveCall)
    → (get ttl_ms now_ms c calls).0 ≡ some call
    → (Dict.lookup c calls ≡ some call) × (now_ms ≤ call.started_at_ms + ttl_ms)
unfolding get
get-live ttl_ms now_ms c calls call e = (ground arith, ground arith)

raise_signal-calls :
    (cfg : Config) (now : ℕ) (ev : SmsEvent) (result : OtpDetectionResult) (o : Option ActiveCall)
    (g : OtpGuard)
    → (raise_signal cfg now ev result o g).calls ≡ g.calls
unfolding raise_signal
raise_signal-calls cfg now ev result none g = refl
raise_signal-calls cfg now ev result (some call) g = ground arith

on_sms-Agrees :
    (cfg : Config) (now_ms now : ℕ) (ev : SmsEvent) (r : String) (g : OtpGuard)
    (last : Option ActiveCall)
    → Agrees r g.calls last
    → Agrees r (on_sms cfg now_ms now ev g).calls last
unfolding on_sms
on_sms-Agrees cfg now_ms now ev r g last h = elim (Bool-cases (is_inbound_otp cfg ev)) [
  | inl otp ↦
      rw
        (
          on_sms,
          otp,
          raise_signal-calls cfg now ev (detected cfg ev)
              (get cfg.ttl_ms now_ms ev.recipient g.calls).0
              (record g { calls = (get cfg.ttl_ms now_ms ev.recipient g.calls).1 }),
        )
        (get-Agrees cfg.ttl_ms now_ms r ev.recipient g.calls last h)
  | inr other ↦ rw (on_sms, other) h
]

run-Agrees :
    (cfg : Config) (r : String) (g : OtpGuard) (es : List Event) (last : Option ActiveCall)
    → Agrees r g.calls last
    → Agrees r (run cfg g es).calls (last_call r last es)
unfolding run feed on_voice
run-Agrees cfg r g [] last h = h
run-Agrees cfg r g (Event.voice ev ∷ es) last h =
    run-Agrees cfg r (on_voice ev g) es (told r ev ev.kind ev.callee last)
      (calls_after-Agrees r ev ev.kind ev.callee g.calls last h)
run-Agrees cfg r g (Event.sms now_ms now ev ∷ es) last h =
    run-Agrees cfg r (on_sms cfg now_ms now ev g) es last
      (on_sms-Agrees cfg now_ms now ev r g last h)

raise_signal-fires :
    (cfg : Config) (now : ℕ) (ev : SmsEvent) (result : OtpDetectionResult) (call : ActiveCall)
    (g : OtpGuard)
    → (should_suppress cfg.window now (key_of ev) g.seen).0 ≡ false
    → (raise_signal cfg now ev result (some call) g).signals
      ≡ build_signal now ev call.caller result ∷ g.signals
unfolding raise_signal
raise_signal-fires cfg now ev result call g fires = rw (raise_signal, fires) refl

raise_signal-holds :
    (cfg : Config) (now : ℕ) (ev : SmsEvent) (result : OtpDetectionResult) (call : ActiveCall)
    (g : OtpGuard)
    → (should_suppress cfg.window now (key_of ev) g.seen).0 ≡ true
    → (raise_signal cfg now ev result (some call) g).signals ≡ g.signals
unfolding raise_signal
raise_signal-holds cfg now ev result call g held = rw (raise_signal, held) refl

grown : (s : OtpSignal) (ss : List OtpSignal) → ss ≢ s ∷ ss
grown s ss e = omega (arith, ap length e)

-- What an SMS that raises a signal finds.
raise_signal-new :
    (cfg : Config) (now : ℕ) (ev : SmsEvent) (result : OtpDetectionResult) (o : Option ActiveCall)
    (g : OtpGuard) (s : OtpSignal)
    → (raise_signal cfg now ev result o g).signals ≡ s ∷ g.signals
    → (call : ActiveCall) × (o ≡ some call) × (s ≡ build_signal now ev call.caller result)
unfolding raise_signal
raise_signal-new cfg now ev result none g s e = elim (grown s g.signals e) [ ]
raise_signal-new cfg now ev result (some call) g s e =
    elim (Bool-cases (should_suppress cfg.window now (key_of ev) g.seen).0) [
      | inl held ↦
          elim (grown s g.signals (sym (raise_signal-holds cfg now ev result call g held) ∙ e)) [ ]
      | inr fires ↦ (
        call,
        refl,
        sym (head-eq_of_cons-eq (sym (raise_signal-fires cfg now ev result call g fires) ∙ e)),
      )
    ]

on_sms-otp :
    (cfg : Config) (now_ms now : ℕ) (ev : SmsEvent) (g : OtpGuard)
    → is_inbound_otp cfg ev ≡ true
    → on_sms cfg now_ms now ev g
      ≡ raise_signal cfg now ev
          (detected cfg ev)
          (get cfg.ttl_ms now_ms ev.recipient g.calls).0
          (record g { calls = (get cfg.ttl_ms now_ms ev.recipient g.calls).1 })
unfolding on_sms
on_sms-otp cfg now_ms now ev g otp = rw (on_sms, otp) refl

on_sms-other :
    (cfg : Config) (now_ms now : ℕ) (ev : SmsEvent) (g : OtpGuard)
    → is_inbound_otp cfg ev ≡ false
    → on_sms cfg now_ms now ev g ≡ g
unfolding on_sms
on_sms-other cfg now_ms now ev g other = rw (on_sms, other) refl

-- If an SMS, after any events, adds a signal, then it is an inbound text that the detector takes for
-- an OTP, the last voice event that started or ended a call to its recipient started one, no longer
-- ago than the time to live, and the signal names that call's caller and the recipient.
pub on_sms-last_call :
    (cfg : Config) (es : List Event) (now_ms now : ℕ) (ev : SmsEvent) (s : OtpSignal)
    → (on_sms cfg now_ms now ev (run cfg new_guard es)).signals ≡ s ∷ (run cfg new_guard es).signals
    → (is_inbound_otp cfg ev ≡ true)
      × (call : ActiveCall) × (last_call ev.recipient none es ≡ some call)
      × (now_ms ≤ call.started_at_ms + cfg.ttl_ms)
      × (s ≡ build_signal now ev call.caller (detected cfg ev))
unfolding new_guard Dict.lookup
on_sms-last_call cfg es now_ms now ev s e = elim (Bool-cases (is_inbound_otp cfg ev)) [
  | inl otp ↦
      let (call, found, same) =
        raise_signal-new cfg now ev (detected cfg ev) (get cfg.ttl_ms now_ms ev.recipient g.calls).0
          (record g { calls = (get cfg.ttl_ms now_ms ev.recipient g.calls).1 }) s
          (sym (ap (λ h. h.signals) (on_sms-otp cfg now_ms now ev g otp)) ∙ e) in
      let (kept, live) = get-live cfg.ttl_ms now_ms ev.recipient g.calls call found in
      (
        otp,
        call,
        left call kept (run-Agrees cfg ev.recipient new_guard es none (inl refl)),
        live,
        same,
      )
  | inr other ↦
      elim (grown s g.signals
        (sym (ap (λ h. h.signals) (on_sms-other cfg now_ms now ev g other)) ∙ e)) [ ]
]
  where
    g : OtpGuard
    g = run cfg new_guard es

    left :
        (call : ActiveCall)
        → Dict.lookup ev.recipient g.calls ≡ some call
        → Agrees ev.recipient g.calls (last_call ev.recipient none es)
        → last_call ev.recipient none es ≡ some call
    left call kept (inl gone) = ground arith
    left call kept (inr same) = sym same ∙ kept
