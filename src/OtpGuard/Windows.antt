-- ===== src/OtpGuard/Windows.antt =====
-- The times of the signals of one suppression key
-- (services/brain-otp-guard/src/brain_otp_guard/runner.py with registry.py).
use fraudnet.Prelude.{
  ℕ, ◌+◌, ◌≤◌, ◌≡◌, ◌∙◌, inl, inr, refl, sym, subst, String, Option, none, some, List, [], ◌∷◌,
  arith, ltb, ◌==◌, if◌then◌else◌, Bool-cases, Option-cases,
}
use fraudnet.Prelude.Dict
use fraudnet.Prelude.Dict.{Dict, lookup-insert}
use fraudnet.Schemas.{SmsEvent}
use fraudnet.OtpGuard.Detector.{OtpDetectionResult}
use fraudnet.OtpGuard.Registry.{ActiveCall, should_suppress}
use fraudnet.OtpGuard.Runner.{
  OtpSignal, Config, OtpGuard, Event, on_voice, build_signal, raise_signal, detected,
  is_inbound_otp, on_sms, feed, run, new_guard, key_of,
}

-- When the last signal of a key was sent; the last signal stands first.
abbrev pub last_sent : String → List OtpSignal → Option ℕ
last_sent k [] = none
last_sent k (s ∷ ss) = if s.suppression_key == k then some s.sent_at else last_sent k ss

-- A time is at least a window after another, if there is one.
abbrev pub IsAfter : ℕ → ℕ → Option ℕ → Type 0
IsAfter window now none = Unit
IsAfter window now (some t) = t + window ≤ now

-- Each signal was sent at least a window after the one before it of its key.
abbrev pub IsSpaced : ℕ → List OtpSignal → Type 0
IsSpaced window [] = Unit
IsSpaced window (s ∷ ss) =
    IsAfter window s.sent_at (last_sent s.suppression_key ss) × IsSpaced window ss

-- The store knows when the last signal of each key was sent.
record IsKnown (window : ℕ) (g : OtpGuard) : Type 0 where
  pub spaced : IsSpaced window g.signals
  pub known : (k : String) → Dict.lookup k g.seen ≡ last_sent k g.signals

raise_signal-IsKnown :
    (cfg : Config) (now : ℕ) (ev : SmsEvent) (result : OtpDetectionResult) (o : Option ActiveCall)
    (g : OtpGuard)
    → IsKnown cfg.window g
    → IsKnown cfg.window (raise_signal cfg now ev result o g)
unfolding raise_signal should_suppress build_signal
raise_signal-IsKnown cfg now ev result none g h = h
raise_signal-IsKnown cfg now ev result (some call) g h =
    elim (Option-cases (Dict.lookup (key_of ev) g.seen)) [
      | inl e ↦
          rw (raise_signal, should_suppress, e)
            (fired (subst (IsAfter cfg.window now) (sym (sym (h.known (key_of ev)) ∙ e)) tt))
      | inr (t, e) ↦ elim (Bool-cases (ltb now (t + cfg.window))) [
        | inl early ↦ rw (raise_signal, should_suppress, e, early) h
        | inr late ↦
            rw (raise_signal, should_suppress, e, late)
              (fired (
                subst (IsAfter cfg.window now) (sym (sym (h.known (key_of ev)) ∙ e))
                  (ground arith)))
      ]
    ]
  where
    fired :
        IsAfter cfg.window now (last_sent (key_of ev) g.signals)
        → IsKnown cfg.window (record g {
          seen = Dict.insert (key_of ev) now g.seen;
          signals = build_signal now ev call.caller result ∷ g.signals;
        })
    fired after = record {
      spaced = (after, h.spaced);
      known = λ k. rw (lookup-insert, h.known k) refl;
    }

on_sms-IsKnown :
    (cfg : Config) (now_ms now : ℕ) (ev : SmsEvent) (g : OtpGuard)
    → IsKnown cfg.window g
    → IsKnown cfg.window (on_sms cfg now_ms now ev g)
unfolding on_sms
on_sms-IsKnown cfg now_ms now ev g h = elim (Bool-cases (is_inbound_otp cfg ev)) [
  | inl otp ↦
      rw (on_sms, otp)
        (raise_signal-IsKnown cfg now ev (detected cfg ev) _ _
          (record { spaced = h.spaced; known = h.known }))
  | inr other ↦ rw (on_sms, other) h
]

run-IsKnown :
    (cfg : Config) (g : OtpGuard) (es : List Event)
    → IsKnown cfg.window g
    → IsKnown cfg.window (run cfg g es)
unfolding run feed on_voice
run-IsKnown cfg g [] h = h
run-IsKnown cfg g (Event.voice ev ∷ es) h =
    run-IsKnown cfg (on_voice ev g) es (record { spaced = h.spaced; known = h.known })
run-IsKnown cfg g (Event.sms now_ms now ev ∷ es) h =
    run-IsKnown cfg (on_sms cfg now_ms now ev g) es (on_sms-IsKnown cfg now_ms now ev g h)

-- After any events, in any order and with any readings of the clocks, each signal sent was sent at
-- least a suppression window after the signal before it of its suppression key.
pub run-IsSpaced :
    (cfg : Config) (es : List Event) → IsSpaced cfg.window (run cfg new_guard es).signals
unfolding new_guard Dict.lookup
run-IsSpaced cfg es =
    let known = run-IsKnown cfg new_guard es (record { spaced = tt; known = λ k. refl }) in
    known.spaced
