-- ===== src/Kafka/Progress.antt =====
-- Commits, counters and dead letters over a run of
-- packages/kafka-client/src/fraudnet/kafka/consumer.py.
use mathlib.Core.List.{append-nil, append_assoc}
use fraudnet.Prelude.{
  ℕ, suc, ◌+◌, ◌≤◌, ◌≡◌, ◌∙◌, refl, sym, ap, subst, String, Bool, Option, List, [], ◌∷◌, ◌++◌, map,
  length, arith,
}
use fraudnet.Kafka.Consumer.{
  Message, Consumer, Decoding, Progress, going, stopped, dispatch, run, new_consumer,
}
use fraudnet.Kafka.Passed.{counted, failures, Poison, Advanced, Passed, dispatch_decoded-Passed}

module _ {S T : Type 0} (topic : String) (has_dlq : Bool) (decode : String → Decoding T)
    (utf8 : String → Option String) (handler : S → Option String → T → S × Bool) where
  -- The consumer went on after all messages, each committed and counted; or it stopped at one of them,
  -- with those before it committed and counted.
  abbrev pub Followed : Consumer S → List Message → Progress S → Type 0
  Followed c ms (going d) =
      (d.committed ≡ c.committed ++ map (λ m. m.offset) ms)
      × (counted d ≡ counted c + length ms)
      × (length d.dead ≤ failures d)
  Followed c ms (stopped d) =
      (before : List Message) × (m : Message) × (after : List Message) × (ms ≡ before ++ m ∷ after)
      × Poison topic has_dlq decode utf8 handler m
      × (d.committed ≡ c.committed ++ map (λ x. x.offset) before)
      × (counted c + length before ≤ counted d)
      × (counted d ≤ suc (counted c + length before))
      × (length d.dead ≤ failures d)

  run-stopped :
      (c : Consumer S) (ms : List Message)
      → run topic has_dlq decode utf8 handler (stopped c) ms ≡ stopped c
  unfolding run
  run-stopped c [] = refl
  run-stopped c (m ∷ ms) = refl

  moved :
      (c d : Consumer S) (m : Message) (ms : List Message) (xs : List ℕ)
      → Advanced topic has_dlq decode utf8 handler c m d
      → xs ≡ d.committed ++ map (λ x. x.offset) ms
      → xs ≡ c.committed ++ map (λ x. x.offset) (m ∷ ms)
  moved c d m ms xs (same, n, h) e =
      e
      ∙ ap (λ l. l ++ map (λ x. x.offset) ms) same
      ∙ append_assoc c.committed (m.offset ∷ []) (map (λ x. x.offset) ms)

  Followed-cons :
      (c d : Consumer S) (m : Message) (ms : List Message) (p : Progress S)
      → Advanced topic has_dlq decode utf8 handler c m d
      → Followed d ms p
      → Followed c (m ∷ ms) p
  Followed-cons c d m ms (going e) a (same, n, h) =
      (moved c d m ms e.committed a same, omega (arith, n, a.1), h)
  Followed-cons c d m ms (stopped e) a (before, x, after, split, poison, same, low, high, h) = (
    m ∷ before,
    x,
    after,
    ap (λ l. m ∷ l) split,
    poison,
    moved c d m before e.committed a same,
    omega (arith, low, a.1),
    omega (arith, high, a.1),
    h,
  )

  next-Followed :
      (c : Consumer S) (m : Message) (ms : List Message) (p : Progress S)
      → Passed topic has_dlq decode utf8 handler c m p
      → ((d : Consumer S)
          → length d.dead ≤ failures d
          → Followed d ms (run topic has_dlq decode utf8 handler (going d) ms))
      → Followed c (m ∷ ms) (run topic has_dlq decode utf8 handler p ms)
  next-Followed c m ms (going d) a follow =
      Followed-cons c d m ms (run topic has_dlq decode utf8 handler (going d) ms) a (follow d a.2)
  next-Followed c m ms (stopped d) (same, low, high, h, poison) follow =
      subst (Followed c (m ∷ ms)) (sym (run-stopped d ms)) (
        [],
        m,
        ms,
        refl,
        poison,
        same ∙ sym (append-nil c.committed),
        omega (arith, low),
        omega (arith, high),
        h,
      )

  run-Followed :
      (c : Consumer S) (ms : List Message)
      → length c.dead ≤ failures c
      → Followed c ms (run topic has_dlq decode utf8 handler (going c) ms)
  unfolding run dispatch
  run-Followed c [] h = (sym (append-nil c.committed), omega arith, h)
  run-Followed c (m ∷ ms) h =
      next-Followed c m ms (dispatch topic has_dlq decode utf8 handler c m)
        (dispatch_decoded-Passed topic has_dlq decode utf8 handler c m (decode m.raw_value) refl h)
        (λ d k. run-Followed d ms k)

  -- Whatever the messages are, a new consumer goes on past all of them, or stops at one of them,
  -- of which the decoding raises what is not caught, the key is not UTF-8, a dead letter is not
  -- sent or its report not served, or the commit raises. It commits each message that it passed
  -- once, in order, and counts each once, as received, as not decoded or as failed in the
  -- handler; one at which it stops is not committed and counted at most once; its dead letters
  -- are at most its failures.
  pub run-IsProgress :
      (s : S) (ms : List Message)
      → Followed
          (new_consumer s)
          ms
          (run topic has_dlq decode utf8 handler (going (new_consumer s)) ms)
  unfolding new_consumer
  run-IsProgress s ms = run-Followed (new_consumer s) ms (omega arith)
