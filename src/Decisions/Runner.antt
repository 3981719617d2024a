-- ===== src/Decisions/Runner.antt =====
-- services/decisions/src/decisions/runner.py: a signal or a motif is evaluated, the suppression key is
-- claimed of a store, and the decision is dispatched. An exception of the dispatcher goes to the
-- consumer, which routes the message to the dead-letter queue and goes on.
use fraudnet.Prelude.{ℕ, String, Bool, Option, none, some, List, [], ◌∷◌, truthy, if◌then◌else◌}
use fraudnet.Prelude.Int.{ℤ, is_pos}
use fraudnet.Prelude.Text.{concat}
use fraudnet.Schemas.{LatencyTier, SignalEvent, MotifDetected, Subject}
use fraudnet.Decisions.Policy.{Policy, DispatchOutcome, evaluate_signal, evaluate_motif}
use fraudnet.Decisions.Dispatcher.{Result, ok, Call, Topics, dispatch_signal, dispatch_motif}

-- The runner with its dispatcher and its store: the two references to the policy, the state of the
-- store, and what has been written.
pub record Service (R : Type 0) : Type 0 where
  pub policy : Policy
  pub dispatcher_policy : Policy
  pub store : R
  pub topics : Topics

-- The key that a signal claims: only with a window and a suppression key.
unfoldable pub signal_claim : DispatchOutcome → SignalEvent → Option String
signal_claim outcome sig = elim (truthy sig.suppression_key) [
  | none ↦ none
  | some sk ↦
      if is_pos outcome.suppression_window_s
      then some (concat (sk ∷ ":" ∷ outcome.action ∷ []))
      else none
]

first_member : List Subject → Option Subject
first_member [] = none
first_member (s ∷ _) = some s

unfoldable pub motif_claim : DispatchOutcome → MotifDetected → Option String
unfolding first_member
motif_claim outcome m = elim (first_member m.members) [
  | none ↦ none
  | some s ↦
      if is_pos outcome.suppression_window_s
      then some
          (concat (m.tenant_id ∷ ":motif:" ∷ m.motif ∷ ":" ∷ s.id ∷ ":" ∷ outcome.action ∷ []))
      else none
]

pub data Message : Type 0 where
  signal : SignalEvent → Message
  motif : MotifDetected → Message

-- The outcome that the policy gives a message, and the key that it then claims.
unfoldable pub evaluate : Policy → Message → DispatchOutcome
evaluate p (signal sig) = evaluate_signal p sig
evaluate p (motif m) = evaluate_motif p m

unfoldable pub claim_key : Policy → Message → Option String
unfolding evaluate signal_claim motif_claim
claim_key p (signal sig) = signal_claim (evaluate_signal p sig) sig
claim_key p (motif m) = motif_claim (evaluate_motif p m) m

module _ (sha256 : String → String) (has_producer : LatencyTier → Bool) where
  unfoldable pub dispatch :
      Policy → Call → Message → DispatchOutcome → Topics → Result (Unit {0}) × Topics
  dispatch p call (signal sig) outcome t = dispatch_signal sha256 has_producer p call sig outcome t
  dispatch p call (motif m) outcome t = dispatch_motif sha256 has_producer p call m outcome t

module _ {R : Type 0} (claim : Option ℕ → R → String → ℤ → Bool × R) (sha256 : String → String)
    (has_producer : LatencyTier → Bool) where
  -- `_on_signal` and `_on_motif`
  unfoldable pub handle : Call → Service R → Message → Result (Unit {0}) × Service R
  handle call s msg =
      let outcome = evaluate s.policy msg in
      let sent = dispatch sha256 has_producer s.dispatcher_policy call msg outcome s.topics in
      elim (claim_key s.policy msg) [
        | none ↦ (sent.0, record s { topics = sent.1 })
        | some key ↦
            let c = claim call.claim_ms s.store key outcome.suppression_window_s in
            if c.0
            then (sent.0, record s { store = c.1; topics = sent.1 })
            else (ok tt, record s { store = c.1 })
      ]

  -- The messages of the two consumers, in the order in which they are handled.
  unfoldable pub run : Service R → List (Call × Message) → Service R
  run s [] = s
  run s ((call, msg) ∷ rest) = run (handle call s msg).1 rest
