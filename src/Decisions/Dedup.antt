-- ===== src/Decisions/Dedup.antt =====
-- The deduplication of decisions: services/decisions/src/decisions/runner.py with suppression.py.
use fraudnet.Prelude.{
  ℕ, ◌+◌, ◌≤◌, ◌<◌, ◌≡◌, refl, sym, ap, subst, ◌∙◌, String, Bool, true, none, some, List, [], ◌∷◌,
  arith, Option-cases, inl, inr,
}
use fraudnet.Prelude.Int.{is_pos}
use fraudnet.Schemas.{LatencyTier, SignalEvent, MotifDetected}
use fraudnet.Decisions.Policy.{Policy, DispatchOutcome, evaluate_signal, evaluate_motif}
use fraudnet.Decisions.Suppression.{
  IsRedis, claim_redis, full_key, milliseconds, claim-expiry, claim_sets, claim_refused,
}
use fraudnet.Decisions.Dispatcher.{Result, ok, Call}
use fraudnet.Decisions.Runner.{
  Service, Message, signal_claim, motif_claim, evaluate, claim_key, handle, run,
}

signal_claim-is_pos :
    (out : DispatchOutcome) (sig : SignalEvent) (k : String)
    → signal_claim out sig ≡ some k
    → is_pos out.suppression_window_s ≡ true
unfolding signal_claim
signal_claim-is_pos out sig k e = ground arith

motif_claim-is_pos :
    (out : DispatchOutcome) (m : MotifDetected) (k : String)
    → motif_claim out m ≡ some k
    → is_pos out.suppression_window_s ≡ true
unfolding motif_claim
motif_claim-is_pos out m k e = ground arith

-- A key is claimed only under a window.
pub claim_key-is_pos :
    (p : Policy) (msg : Message) (k : String)
    → claim_key p msg ≡ some k
    → is_pos (evaluate p msg).suppression_window_s ≡ true
unfolding claim_key evaluate
claim_key-is_pos p (Message.signal sig) k e = signal_claim-is_pos (evaluate_signal p sig) sig k e
claim_key-is_pos p (Message.motif m) k e = motif_claim-is_pos (evaluate_motif p m) m k e

module _ {R : Type 0} (set_nx : R → ℕ → String → ℕ → Bool × R) (expiry : R → String → ℕ)
    (redis : IsRedis set_nx expiry) (namespace : String) (sha256 : String → String)
    (has_producer : LatencyTier → Bool) where
  abbrev pub answer : Call → Service R → Message → Result (Unit {0}) × Service R
  answer = handle (claim_redis set_nx namespace) sha256 has_producer

  abbrev pub answer_all : Service R → List (Call × Message) → Service R
  answer_all = run (claim_redis set_nx namespace) sha256 has_producer

  handle-policy :
      (call : Call) (s : Service R) (msg : Message) → (answer call s msg).1.policy ≡ s.policy
  unfolding handle
  handle-policy call s msg = ground arith

  run-policy :
      (s : Service R) (msgs : List (Call × Message)) → (answer_all s msgs).policy ≡ s.policy
  unfolding run
  run-policy s [] = refl
  run-policy s ((call, msg) ∷ rest) =
      run-policy (answer call s msg).1 rest ∙ handle-policy call s msg

  handle-store :
      (call : Call) (s : Service R) (msg : Message) (key : String)
      → claim_key s.policy msg ≡ some key
      → (answer call s msg).1.store
        ≡ (claim_redis set_nx namespace call.claim_ms s.store key
            (evaluate s.policy msg).suppression_window_s).1
  unfolding handle
  handle-store call s msg key e = ground (arith, e)

  handle-kept :
      (call : Call) (s : Service R) (msg : Message)
      → claim_key s.policy msg ≡ none
      → (answer call s msg).1.store ≡ s.store
  unfolding handle
  handle-kept call s msg e = ground (arith, e)

  -- No key expires earlier by a message.
  handle-expiry :
      (call : Call) (s : Service R) (msg : Message) (key : String)
      → expiry s.store key ≤ expiry (answer call s msg).1.store key
  handle-expiry call s msg key = elim (Option-cases (claim_key s.policy msg)) [
    | inl e ↦ let same = ap (λ r. expiry r key) (handle-kept call s msg e) in omega (arith, same)
    | inr (k, e) ↦
        subst (λ r. expiry s.store key ≤ expiry r key) (sym (handle-store call s msg k e))
          (claim-expiry set_nx expiry redis namespace call.claim_ms s.store k key
            (evaluate s.policy msg).suppression_window_s)
  ]

  run-expiry :
      (s : Service R) (msgs : List (Call × Message)) (key : String)
      → expiry s.store key ≤ expiry (answer_all s msgs).store key
  unfolding run
  run-expiry s [] key = omega arith
  run-expiry s ((call, msg) ∷ rest) key =
      omega (arith, handle-expiry call s msg key, run-expiry (answer call s msg).1 rest key)

  handle-refused :
      (call : Call) (s : Service R) (msg : Message) (k : String) (now : ℕ)
      → claim_key s.policy msg ≡ some k
      → call.claim_ms ≡ some now
      → now < expiry s.store (full_key namespace k)
      → answer call s msg ≡ (ok tt, s)
  unfolding handle
  handle-refused call s msg k now e c live =
      rw
        (
          handle,
          e,
          c,
          claim_refused set_nx expiry redis namespace now s.store k
              (evaluate s.policy msg).suppression_window_s (claim_key-is_pos s.policy msg k e) live,
        )
        refl

  -- With a store over a Redis that sets a key not held until the end of its time to live and
  -- changes nothing where it is held: where a message claims a suppression key that is not held,
  -- whatever messages are handled in between and whatever their clocks read, a message with that
  -- key, for which Redis is reached before the first one's window has passed since, is answered
  -- without an error and changes nothing: nothing is written for it. That is so whether or not
  -- the first one's dispatch succeeded.
  pub handle_once :
      (first second : Call) (s : Service R) (msg again : Message) (between : List (Call × Message))
      (k : String) (t u : ℕ)
      → claim_key s.policy msg ≡ some k
      → claim_key s.policy again ≡ some k
      → first.claim_ms ≡ some t
      → expiry s.store (full_key namespace k) ≤ t
      → second.claim_ms ≡ some u
      → u < t + milliseconds (evaluate s.policy msg).suppression_window_s
      → (let after = answer_all (answer first s msg).1 between in
          answer second after again ≡ (ok tt, after))
  handle_once first second s msg again between k t u e f c free d within =
      let set : expiry (answer first s msg).1.store (full_key namespace k)
          ≡ t + milliseconds (evaluate s.policy msg).suppression_window_s =
        ap (λ r. expiry r (full_key namespace k)) (handle-store first s msg k e)
        ∙ ap
            (λ o.
              expiry
                (claim_redis set_nx namespace o s.store k
                  (evaluate s.policy msg).suppression_window_s).1
                (full_key namespace k))
            c
        ∙ claim_sets set_nx expiry redis namespace t s.store k
            (evaluate s.policy msg).suppression_window_s (claim_key-is_pos s.policy msg k e) free in
      let kept = run-expiry (answer first s msg).1 between (full_key namespace k) in
      handle-refused second (answer_all (answer first s msg).1 between) again k u
        (ap (λ p. claim_key p again)
            (run-policy (answer first s msg).1 between ∙ handle-policy first s msg)
          ∙ f)
        d (omega (arith, set, kept, within))
