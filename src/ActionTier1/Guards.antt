-- ===== src/ActionTier1/Guards.antt =====
-- When the sinkhole actuator of services/action-tier1/src/action_tier1/actuators.py acts.
use fraudnet.Prelude.{
  ◌<◌, ◌≡◌, ◌≢◌, ◌↔◌, ◌∙◌, inl, inr, refl, sym, ap, String, Bool, true, false, not, ◌&&◌, some,
  List, [], arith, ◌==◌, Bool-cases,
}
use fraudnet.Domain.Labels.{suffix_match, label_match-eq-suffix_match}
use fraudnet.Schemas.{DecisionDispatched, entity_value}
use fraudnet.ActionTier1.Actuators.{
  Reply, AddReply, executed, suppressed, failed, result, push_sinkhole, register, execute_sinkhole,
  is_locally_allow_listed,
}

-- The replies that lead to `executed`: url-intel answers with a status below 400, and not that it
-- refuses the domain for its allow-list; another refusal counts as an answer. A sinkhole answers
-- with a status below 400.
abbrev pub Accepted : Bool → AddReply → Reply → Type 0
Accepted true (AddReply.answered s ok listed) (Reply.status r) =
    (s < 400) × ((not ok && listed) ≡ false) × (r < 400)
Accepted false (AddReply.answered s ok listed) reply = (s < 400) × ((not ok && listed) ≡ false)
Accepted _ _ _ = ⊥

register-Accepted :
    (id : String) (has_sinkhole : Bool) (added : AddReply) (reply : Reply) (domain : String)
    → (register id has_sinkhole added reply domain).0.outcome ≡ executed
    → Accepted has_sinkhole added reply
unfolding register push_sinkhole
register-Accepted id true (AddReply.answered s ok listed) (Reply.status r) domain e =
    (ground arith, ground arith, ground arith)
register-Accepted id true (AddReply.answered s ok listed) Reply.timeout domain e = ground arith
register-Accepted id true (AddReply.answered s ok listed) (Reply.broken x) domain e = ground arith
register-Accepted id false (AddReply.answered s ok listed) reply domain e =
    (ground arith, ground arith)
register-Accepted id has_sinkhole AddReply.timeout reply domain e = ground arith
register-Accepted id has_sinkhole (AddReply.broken x) reply domain e = ground arith

Accepted-register :
    (id : String) (has_sinkhole : Bool) (added : AddReply) (reply : Reply) (domain : String)
    → Accepted has_sinkhole added reply
    → (register id has_sinkhole added reply domain).0.outcome ≡ executed
unfolding register push_sinkhole
Accepted-register id true (AddReply.answered s ok listed) (Reply.status r) domain (a, b, c) =
    ground (arith, a, b, c)
Accepted-register id false (AddReply.answered s ok listed) reply domain (a, b) =
    ground (arith, a, b)
Accepted-register id true (AddReply.answered s ok listed) Reply.timeout domain a = absurd a
Accepted-register id true (AddReply.answered s ok listed) (Reply.broken x) domain a = absurd a
Accepted-register id true AddReply.timeout reply domain a = absurd a
Accepted-register id false AddReply.timeout reply domain a = absurd a
Accepted-register id true (AddReply.broken x) reply domain a = absurd a
Accepted-register id false (AddReply.broken x) reply domain a = absurd a

failed_ne : failed ≢ executed
failed_ne e = ground arith

suppressed_ne : suppressed ≢ executed
suppressed_ne e = ground arith

module _ (clean : String → String) (allow_list : List String) (id : String) (has_sinkhole : Bool)
    (added : AddReply) (reply : Reply) (d : DecisionDispatched) where
  execute_sinkhole-other :
      (entity_value d.subject.kind == "url") ≡ false
      → execute_sinkhole clean allow_list id has_sinkhole added reply d
        ≡ (result failed id (some "not a url subject"), [])
  unfolding execute_sinkhole
  execute_sinkhole-other other = rw (execute_sinkhole, other) refl

  execute_sinkhole-local :
      (entity_value d.subject.kind == "url") ≡ true
      → is_locally_allow_listed clean allow_list d.subject.id ≡ true
      → execute_sinkhole clean allow_list id has_sinkhole added reply d
        ≡ (result suppressed id (some "local_allow_listed"), [])
  unfolding execute_sinkhole
  execute_sinkhole-local url listed = rw (execute_sinkhole, url, listed) refl

  execute_sinkhole-register :
      (entity_value d.subject.kind == "url") ≡ true
      → is_locally_allow_listed clean allow_list d.subject.id ≡ false
      → execute_sinkhole clean allow_list id has_sinkhole added reply d
        ≡ register id has_sinkhole added reply d.subject.id
  unfolding execute_sinkhole
  execute_sinkhole-register url free = rw (execute_sinkhole, url, free) refl

  -- Whatever the services would reply: for a subject whose domain, cleaned and not empty, is
  -- in the local allow-list or ends in a dot and a member of it, the sinkhole actuator makes
  -- no call at all, and its result is not `executed`.
  pub execute_sinkhole-protected :
      clean d.subject.id == "" ≡ false
      → suffix_match allow_list (clean d.subject.id) ≡ true
      → ((execute_sinkhole clean allow_list id has_sinkhole added reply d).1 ≡ [])
        × ¬ ((execute_sinkhole clean allow_list id has_sinkhole added reply d).0.outcome ≡ executed)
  unfolding is_locally_allow_listed
  execute_sinkhole-protected some_text allowed =
      elim (Bool-cases (entity_value d.subject.kind == "url")) [
        | inl url ↦
            let same = execute_sinkhole-local url local in
            (ap (λ r. r.1) same, λ e. suppressed_ne (sym (ap (λ r. r.0.outcome) same) ∙ e))
        | inr other ↦
            let same = execute_sinkhole-other other in
            (ap (λ r. r.1) same, λ e. failed_ne (sym (ap (λ r. r.0.outcome) same) ∙ e))
      ]
    where
      local : is_locally_allow_listed clean allow_list d.subject.id ≡ true
      local =
          rw (is_locally_allow_listed, some_text)
            (label_match-eq-suffix_match allow_list (clean d.subject.id) ∙ allowed)

  executed-Accepted :
      (execute_sinkhole clean allow_list id has_sinkhole added reply d).0.outcome ≡ executed
      → ((entity_value d.subject.kind == "url") ≡ true)
        × (is_locally_allow_listed clean allow_list d.subject.id ≡ false)
        × Accepted has_sinkhole added reply
  executed-Accepted e = elim (Bool-cases (entity_value d.subject.kind == "url")) [
    | inl url ↦ elim (Bool-cases (is_locally_allow_listed clean allow_list d.subject.id)) [
      | inl listed ↦
          elim (suppressed_ne
            (sym (ap (λ r. r.0.outcome) (execute_sinkhole-local url listed)) ∙ e)) [ ]
      | inr free ↦ (
        url,
        free,
        register-Accepted id has_sinkhole added reply d.subject.id
            (sym (ap (λ r. r.0.outcome) (execute_sinkhole-register url free)) ∙ e),
      )
    ]
    | inr other ↦
        elim (failed_ne (sym (ap (λ r. r.0.outcome) (execute_sinkhole-other other)) ∙ e)) [ ]
  ]

  -- The sinkhole actuator reports `executed` just where the subject is a URL that the local
  -- allow-list does not stop, url-intel answered with a status below 400 and not that it refuses
  -- the domain for its own allow-list, and, where a sinkhole is configured, that answered with a
  -- status below 400; another refusal of url-intel does not stop it.
  pub execute_sinkhole-Accepted :
      ((execute_sinkhole clean allow_list id has_sinkhole added reply d).0.outcome ≡ executed) ↔ (
        ((entity_value d.subject.kind == "url") ≡ true)
        × (is_locally_allow_listed clean allow_list d.subject.id ≡ false)
        × Accepted has_sinkhole added reply)
  execute_sinkhole-Accepted = (
    executed-Accepted,
    λ (url, free, accepted).
        ap (λ r. r.0.outcome) (execute_sinkhole-register url free)
        ∙ Accepted-register id has_sinkhole added reply d.subject.id accepted,
  )
