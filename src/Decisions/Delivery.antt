-- ===== src/Decisions/Delivery.antt =====
-- The topics of services/decisions/src/decisions/dispatcher.py under runner.py: the audit topic
-- against the topics of the tiers.
use mathlib.Core.List.{Sublistᴰ}
use fraudnet.Prelude.{
  ◌≡◌, ◌⊎◌, ◌∙◌, ap, refl, subst, sym, ℕ, String, Bool, Option, List, [], ◌∷◌, ◌++◌, All,
  All-append, Bool-cases, Option-cases, inl, inr, Sublist-append_right, Sublist-append_both,
}
use fraudnet.Prelude.Int.{ℤ}
use fraudnet.Schemas.{LatencyTier, DecisionDispatched, Subject}
use fraudnet.Decisions.Policy.{Policy, DispatchOutcome}
use fraudnet.Decisions.Dispatcher.{
  Call, Topics, topic_of, write_tier, publish, dispatch_signal, dispatch_motif, motif_to,
}
use fraudnet.Decisions.Runner.{Service, Message, evaluate, claim_key, dispatch, handle, run}

pub record IsAudited (t : Topics) : Type 0 where
  pub audited : (tier : LatencyTier) → Sublistᴰ (topic_of t tier) t.audit
  pub tiered : (tier : LatencyTier) → All (λ d. d.tier ≡ tier) (topic_of t tier)

-- The audit write alone keeps the topics audited.
audit-IsAudited :
    (t : Topics) (d : DecisionDispatched)
    → IsAudited t
    → IsAudited (record t { audit = t.audit ++ d ∷ [] })
audit-IsAudited t d h = record {
  audited = elim [
    | LatencyTier.tier1_inline ↦ Sublist-append_right d (h.audited LatencyTier.tier1_inline)
    | LatencyTier.tier2_nrt ↦ Sublist-append_right d (h.audited LatencyTier.tier2_nrt)
    | LatencyTier.tier3_investigation ↦
        Sublist-append_right d (h.audited LatencyTier.tier3_investigation)
  ];
  tiered = elim [
    | LatencyTier.tier1_inline ↦ h.tiered LatencyTier.tier1_inline
    | LatencyTier.tier2_nrt ↦ h.tiered LatencyTier.tier2_nrt
    | LatencyTier.tier3_investigation ↦ h.tiered LatencyTier.tier3_investigation
  ];
}

-- What a tier's topic holds after the write of a decision to its tier.
topic_of-write_tier :
    (t : Topics) (own tier : LatencyTier) (d : DecisionDispatched)
    → ((tier ≡ own) × (topic_of (write_tier t own d) tier ≡ topic_of t tier ++ d ∷ []))
      ⊎ (topic_of (write_tier t own d) tier ≡ topic_of t tier)
unfolding write_tier
topic_of-write_tier t LatencyTier.tier1_inline LatencyTier.tier1_inline d = inl (refl, refl)
topic_of-write_tier t LatencyTier.tier2_nrt LatencyTier.tier2_nrt d = inl (refl, refl)
topic_of-write_tier t LatencyTier.tier3_investigation LatencyTier.tier3_investigation d =
    inl (refl, refl)
topic_of-write_tier t LatencyTier.tier1_inline LatencyTier.tier2_nrt d = inr refl
topic_of-write_tier t LatencyTier.tier1_inline LatencyTier.tier3_investigation d = inr refl
topic_of-write_tier t LatencyTier.tier2_nrt LatencyTier.tier1_inline d = inr refl
topic_of-write_tier t LatencyTier.tier2_nrt LatencyTier.tier3_investigation d = inr refl
topic_of-write_tier t LatencyTier.tier3_investigation LatencyTier.tier1_inline d = inr refl
topic_of-write_tier t LatencyTier.tier3_investigation LatencyTier.tier2_nrt d = inr refl

audit-write_tier :
    (t : Topics) (own : LatencyTier) (d : DecisionDispatched) → (write_tier t own d).audit ≡ t.audit
unfolding write_tier
audit-write_tier t LatencyTier.tier1_inline d = refl
audit-write_tier t LatencyTier.tier2_nrt d = refl
audit-write_tier t LatencyTier.tier3_investigation d = refl

-- The audit write with the write to the decision's tier does, too.
both-IsAudited :
    (t : Topics) (d : DecisionDispatched)
    → IsAudited t
    → IsAudited (write_tier (record t { audit = t.audit ++ d ∷ [] }) d.tier d)
both-IsAudited t d h = record {
  audited = λ tier. subst (Sublistᴰ _) (sym (audit-write_tier audit_only d.tier d)) (held tier);
  tiered = λ tier. elim (topic_of-write_tier audit_only d.tier tier d) [
    | inl (own, e) ↦
        subst (All (λ c. c.tier ≡ tier)) (sym e)
          (All-append _ (topic_of audit_only tier) (d ∷ []) (once.tiered tier) (sym own, tt))
    | inr e ↦ subst (All (λ c. c.tier ≡ tier)) (sym e) (once.tiered tier)
  ];
}
  where
    audit_only : Topics
    audit_only = record t { audit = t.audit ++ d ∷ [] }

    once : IsAudited audit_only
    once = audit-IsAudited t d h

    same : (tier : LatencyTier) → topic_of audit_only tier ≡ topic_of t tier
    same LatencyTier.tier1_inline = refl
    same LatencyTier.tier2_nrt = refl
    same LatencyTier.tier3_investigation = refl

    held :
        (tier : LatencyTier)
        → Sublistᴰ (topic_of (write_tier audit_only d.tier d) tier) (t.audit ++ d ∷ [])
    held tier = elim (topic_of-write_tier audit_only d.tier tier d) [
      | inl (_, e) ↦
          subst (λ l. Sublistᴰ l (t.audit ++ d ∷ [])) (sym (e ∙ ap (λ l. l ++ d ∷ []) (same tier)))
            (Sublist-append_both d (h.audited tier))
      | inr e ↦ subst (λ l. Sublistᴰ l (t.audit ++ d ∷ [])) (sym e) (once.audited tier)
    ]

module _ (sha256 : String → String) (has_producer : LatencyTier → Bool) where
  publish-IsAudited :
      (call : Call) (d : DecisionDispatched) (t : Topics)
      → IsAudited t
      → IsAudited (publish sha256 has_producer call d t).1
  unfolding publish
  publish-IsAudited call d t h = elim (Bool-cases call.audit_delivered) [
    | inl a ↦ elim (Bool-cases (has_producer d.tier)) [
      | inl p ↦ elim (Bool-cases call.tier_delivered) [
        | inl e ↦ rw (publish, a, p, e) (both-IsAudited t d h)
        | inr e ↦ rw (publish, a, p, e) (audit-IsAudited t d h)
      ]
      | inr p ↦ rw (publish, a, p) (audit-IsAudited t d h)
    ]
    | inr a ↦ rw (publish, a) h
  ]

  dispatch-IsAudited :
      (p : Policy) (call : Call) (msg : Message) (out : DispatchOutcome) (t : Topics)
      → IsAudited t
      → IsAudited (dispatch sha256 has_producer p call msg out t).1
  unfolding dispatch dispatch_signal dispatch_motif motif_to
  dispatch-IsAudited p call (Message.signal sig) out t h = publish-IsAudited call _ t h
  dispatch-IsAudited p call (Message.motif m) out t h = by_member m.members
    where
      by_member :
          (subjects : List Subject)
          → IsAudited (motif_to sha256 has_producer p call m out t subjects).1
      by_member [] = h
      by_member (subject ∷ _) = publish-IsAudited call _ t h

module _ {R : Type 0} (claim : Option ℕ → R → String → ℤ → Bool × R) (sha256 : String → String)
    (has_producer : LatencyTier → Bool) where
  handle-IsAudited :
      (call : Call) (s : Service R) (msg : Message)
      → IsAudited s.topics
      → IsAudited (handle claim sha256 has_producer call s msg).1.topics
  unfolding handle
  handle-IsAudited call s msg h = elim (Option-cases (claim_key s.policy msg)) [
    | inl e ↦ rw (handle, e) sent
    | inr (k, e) ↦
        elim (Bool-cases
          (claim call.claim_ms s.store k (evaluate s.policy msg).suppression_window_s).0) [
            | inl c ↦ rw (handle, e, c) sent
            | inr c ↦ rw (handle, e, c) h
          ]
  ]
    where
      sent :
          IsAudited
            (dispatch sha256 has_producer s.dispatcher_policy call msg
              (evaluate s.policy msg)
              s.topics).1
      sent =
          dispatch-IsAudited sha256 has_producer s.dispatcher_policy call msg
            (evaluate s.policy msg) s.topics h

  -- With every store: from topics where it holds, such as empty ones, every sequence of handled messages, with sends
  -- that fail and tiers without a producer among them, leaves the decisions of a tier's topic in the
  -- audit topic, in the same order, and leaves in a tier's topic decisions of that tier only.
  pub run-IsAudited :
      (s : Service R) (msgs : List (Call × Message))
      → IsAudited s.topics
      → IsAudited (run claim sha256 has_producer s msgs).topics
  unfolding run
  run-IsAudited s [] h = h
  run-IsAudited s ((call, msg) ∷ rest) h =
      run-IsAudited (handle claim sha256 has_producer call s msg).1 rest
        (handle-IsAudited call s msg h)
