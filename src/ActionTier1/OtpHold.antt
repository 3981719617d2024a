-- ===== src/ActionTier1/OtpHold.antt =====
-- What the OTP hold of services/action-tier1/src/action_tier1/actuators.py learns of the caller
-- from a decision that services/decisions/src/decisions/dispatcher.py made from a signal.
use fraudnet.Prelude.{ℕ, ◌≡◌, refl, String, Bool, some}
use fraudnet.Prelude.Dict
use fraudnet.Schemas.{LatencyTier, Primitive, SignalEvent}
use fraudnet.Decisions.Policy.{Policy, DispatchOutcome}
use fraudnet.Decisions.Dispatcher.{Call, build_decision, signal_decision}
use fraudnet.ActionTier1.Actuators.{HttpActuator, payload}

-- For every policy, signal and outcome, the payload of the OTP hold for the decision made from the
-- signal names the empty text as the caller, whatever caller the signal's evidence has.
pub otp_hold-caller :
    (sha256 : String → String) (has_producer : LatencyTier → Bool) (policy : Policy) (call : Call)
    (sig : SignalEvent) (outcome : DispatchOutcome) (hold_duration_s : ℕ)
    → Dict.lookup "caller" (
        payload
          (HttpActuator.otp_hold hold_duration_s)
          (signal_decision sha256 has_producer policy call sig outcome))
      ≡ some (Primitive.str "")
unfolding payload build_decision Dict.lookup Dict.insert
otp_hold-caller sha256 has_producer policy call sig outcome hold_duration_s = refl
