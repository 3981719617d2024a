-- ===== src/Kafka/Passed.antt =====
-- What one message does to the consumer of packages/kafka-client/src/fraudnet/kafka/consumer.py.
use fraudnet.Prelude.{
  ℕ, suc, ◌+◌, ◌≤◌, ◌≡◌, ◌⊎◌, inl, inr, refl, sym, ap, subst, String, Bool, true, false, Option, [],
  ◌∷◌, ◌++◌, length, length-append, arith, Bool-cases, if◌then◌else◌,
}
use fraudnet.Kafka.Consumer.{
  Reason, Message, Consumer, Decoding, decoded, refused, escaped, Produced, delivered, lost, unsent,
  unreported, Progress, going, stopped, Key, key, not_utf8, read_key, letter, send, send_dead,
  commit, after_handler, dispatch_payload, dispatch_decoded, decode_error, handler_error,
}

-- How many messages a consumer has counted.
abbrev pub counted : {S : Type 0} → Consumer S → ℕ
counted c = c.received + c.decode_errors + c.handler_errors

-- How many failures a consumer has counted.
abbrev pub failures : {S : Type 0} → Consumer S → ℕ
failures c = c.decode_errors + c.handler_errors

module _ {S T : Type 0} (topic : String) (has_dlq : Bool) (decode : String → Decoding T)
    (utf8 : String → Option String) (handler : S → Option String → T → S × Bool) where
  -- What can stop the consumer at a message: a decoding error that is not caught, a key that is not
  -- UTF-8, a dead letter that is not sent or whose report is not served, a commit that raises.
  abbrev pub Poison : Message → Type 0
  Poison m =
      (decode m.raw_value ≡ escaped)
      ⊎ (read_key utf8 m.raw_key ≡ not_utf8)
      ⊎ ((has_dlq ≡ true) × ((m.dead_letter ≡ unsent) ⊎ (m.dead_letter ≡ unreported)))
      ⊎ (m.commits ≡ false)

  -- The message is committed and counted, with a dead letter at most for a failure.
  abbrev pub Advanced : Consumer S → Message → Consumer S → Type 0
  Advanced c m d =
      (d.committed ≡ c.committed ++ m.offset ∷ [])
      × (counted d ≡ suc (counted c))
      × (length d.dead ≤ failures d)

  -- The message is not committed, and counted at most once.
  abbrev pub Stuck : Consumer S → Message → Consumer S → Type 0
  Stuck c m d =
      (d.committed ≡ c.committed)
      × (counted c ≤ counted d)
      × (counted d ≤ suc (counted c))
      × (length d.dead ≤ failures d)
      × Poison m

  abbrev pub Passed : Consumer S → Message → Progress S → Type 0
  Passed c m (going d) = Advanced c m d
  Passed c m (stopped d) = Stuck c m d

  -- The message is counted, and not committed yet.
  abbrev Handled : Consumer S → Message → Progress S → Type 0
  Handled c m (going d) =
      (d.committed ≡ c.committed) × (counted d ≡ suc (counted c)) × (length d.dead ≤ failures d)
  Handled c m (stopped d) = Stuck c m d

  send-Handled :
      (c : Consumer S) (m : Message) (reason : Reason) (d : Consumer S) (p : Produced)
      → has_dlq ≡ true
      → m.dead_letter ≡ p
      → d.committed ≡ c.committed
      → counted d ≡ suc (counted c)
      → suc (length d.dead) ≤ failures d
      → Handled c m (send topic has_dlq decode utf8 handler m reason d p)
  send-Handled c m reason d delivered on e same n h = (
    same,
    n,
    omega (arith, length-append d.dead (letter topic has_dlq decode utf8 handler m reason ∷ []), h),
  )
  send-Handled c m reason d lost on e same n h = (same, n, omega (arith, h))
  send-Handled c m reason d unsent on e same n h =
      (same, omega (arith, n), omega (arith, n), omega (arith, h), inr (inr (inl (on, inl e))))
  send-Handled c m reason d unreported on e same n h =
      (same, omega (arith, n), omega (arith, n), omega (arith, h), inr (inr (inl (on, inr e))))

  send_dead-Handled :
      (c : Consumer S) (m : Message) (reason : Reason) (d : Consumer S)
      → d.committed ≡ c.committed
      → counted d ≡ suc (counted c)
      → suc (length d.dead) ≤ failures d
      → Handled c m (send_dead topic has_dlq decode utf8 handler m reason d)
  unfolding send_dead
  send_dead-Handled c m reason d same n h = elim (Bool-cases has_dlq) [
    | inl on ↦
        subst (λ b. Handled c m (if b then send_it else going d)) (sym on)
          (send-Handled c m reason d m.dead_letter on refl same n h)
    | inr off ↦
        subst (λ b. Handled c m (if b then send_it else going d)) (sym off)
          (same, n, omega (arith, h))
  ]
    where
      send_it : Progress S
      send_it = send topic has_dlq decode utf8 handler m reason d m.dead_letter

  abbrev took : Message → Consumer S → Consumer S
  took m d = record d { committed = d.committed ++ m.offset ∷ [] }

  commit-Passed :
      (c : Consumer S) (m : Message) (p : Progress S)
      → Handled c m p
      → Passed c m (commit topic has_dlq decode utf8 handler m p)
  unfolding commit
  commit-Passed c m (stopped d) h = h
  commit-Passed c m (going d) (same, n, h) = elim (Bool-cases m.commits) [
    | inl taken ↦
        subst (λ b. Passed c m (if b then going (took m d) else stopped d)) (sym taken)
          (ap (λ l. l ++ m.offset ∷ []) same, n, h)
    | inr raised ↦
        subst (λ b. Passed c m (if b then going (took m d) else stopped d)) (sym raised)
          (same, omega (arith, n), omega (arith, n), h, inr (inr (inr raised)))
  ]

  after_handler-Handled :
      (c : Consumer S) (m : Message) (r : S × Bool)
      → length c.dead ≤ failures c
      → Handled c m (after_handler topic has_dlq decode utf8 handler m c r)
  unfolding after_handler
  after_handler-Handled c m (state, true) h = (refl, omega arith, omega (arith, h))
  after_handler-Handled c m (state, false) h =
      send_dead-Handled c m handler_error
        (record c { state = state; handler_errors = suc c.handler_errors }) refl (omega arith)
        (omega (arith, h))

  dispatch_payload-Passed :
      (c : Consumer S) (m : Message) (payload : T) (k : Key)
      → read_key utf8 m.raw_key ≡ k
      → length c.dead ≤ failures c
      → Passed c m (dispatch_payload topic has_dlq decode utf8 handler c m payload k)
  unfolding dispatch_payload
  dispatch_payload-Passed c m payload not_utf8 e h =
      (refl, omega arith, omega arith, h, inr (inl e))
  dispatch_payload-Passed c m payload (key k) e h =
      commit-Passed c m
        (after_handler topic has_dlq decode utf8 handler m c (handler c.state k payload))
        (after_handler-Handled c m (handler c.state k payload) h)

  pub dispatch_decoded-Passed :
      (c : Consumer S) (m : Message) (o : Decoding T)
      → decode m.raw_value ≡ o
      → length c.dead ≤ failures c
      → Passed c m (dispatch_decoded topic has_dlq decode utf8 handler c m o)
  unfolding dispatch_decoded
  dispatch_decoded-Passed c m escaped e h = (refl, omega arith, omega arith, h, inl e)
  dispatch_decoded-Passed c m (decoded payload) e h =
      dispatch_payload-Passed c m payload (read_key utf8 m.raw_key) refl h
  dispatch_decoded-Passed c m refused e h =
      let d = record c { decode_errors = suc c.decode_errors } in
      commit-Passed c m (send_dead topic has_dlq decode utf8 handler m decode_error d)
        (send_dead-Handled c m decode_error d refl (omega arith) (omega (arith, h)))
