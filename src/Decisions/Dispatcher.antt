-- ===== src/Decisions/Dispatcher.antt =====
-- services/decisions/src/decisions/dispatcher.py: a decision is built from a signal or a motif and
-- its outcome, and written to the audit topic and to the topic of its tier. The clock, the two UUIDs
-- and whether each of the two sends is delivered are inputs of a call; a send that raises is taken
-- to have written nothing.
use fraudnet.Prelude.{ℕ, String, Bool, Option, some, List, [], ◌∷◌, ◌++◌, length, if◌then◌else◌}
use fraudnet.Prelude.Dict
use fraudnet.Prelude.Dict.{Dict}
use fraudnet.Prelude.Text.{concat}
use fraudnet.Schemas.{
  LatencyTier, Severity, Subject, RiskScore, Primitive, SignalEvent, MotifDetected,
  DecisionDispatched,
}
use fraudnet.Decisions.Policy.{Policy, DispatchOutcome, fingerprint}

pub data Error : Type 0 where
  delivery_error no_members : Error

pub data Result (A : Type 0) : Type 0 where
  ok : A → Result A
  raised : Error → Result A

-- What one call of the dispatcher meets: `int(time() * 1000)`, `uuid4().hex[:24]` twice, and whether
-- the audit send and the tier send are delivered.
pub record Call : Type 0 where
  pub now_ms : ℕ
  pub event_uuid : String
  pub decision_uuid : String
  pub audit_delivered : Bool
  pub tier_delivered : Bool
  pub claim_ms : Option ℕ

-- What has been written to the four topics.
pub record Topics : Type 0 where
  pub audit : List DecisionDispatched
  pub tier1 : List DecisionDispatched
  pub tier2 : List DecisionDispatched
  pub tier3 : List DecisionDispatched

abbrev pub topic_of : Topics → LatencyTier → List DecisionDispatched
topic_of t LatencyTier.tier1_inline = t.tier1
topic_of t LatencyTier.tier2_nrt = t.tier2
topic_of t LatencyTier.tier3_investigation = t.tier3

unfoldable pub write_tier : Topics → LatencyTier → DecisionDispatched → Topics
write_tier t LatencyTier.tier1_inline d = record t { tier1 = t.tier1 ++ d ∷ [] }
write_tier t LatencyTier.tier2_nrt d = record t { tier2 = t.tier2 ++ d ∷ [] }
write_tier t LatencyTier.tier3_investigation d = record t { tier3 = t.tier3 ++ d ∷ [] }

-- `has_producer` says for which tiers a producer was configured.
module _ (sha256 : String → String) (has_producer : LatencyTier → Bool) where
  unfoldable pub build_decision :
      Policy
      → Call
      → DispatchOutcome
      → Subject
      → Severity
      → Option RiskScore
      → String
      → String
      → Option String
      → Dict Primitive
      → DecisionDispatched
  build_decision policy call outcome subject severity score tenant_id source suppression_key
        metadata =
      record {
        event_id = concat ("dec_" ∷ call.event_uuid ∷ []);
        event_ts_ms = call.now_ms;
        ingest_ts_ms = call.now_ms;
        source = source;
        tenant_id = tenant_id;
        decision_id = concat ("dec_" ∷ call.decision_uuid ∷ []);
        tier = outcome.tier;
        action = outcome.action;
        subject = subject;
        severity = severity;
        score = score;
        policy_id = policy.id;
        policy_version = policy.version;
        suppression_key = suppression_key;
        metadata =
            Dict.insert "policy_fingerprint" (Primitive.str (fingerprint sha256 policy))
              (Dict.insert "rule_id" (Primitive.str outcome.rule_id) metadata);
      }

  -- `_publish`: the audit topic always, then the topic of the tier if it has a producer
  unfoldable pub publish : Call → DecisionDispatched → Topics → Result (Unit {0}) × Topics
  unfolding write_tier
  publish call d t =
      let audited = record t { audit = t.audit ++ d ∷ [] } in
      if call.audit_delivered
      then (if has_producer d.tier
          then (if call.tier_delivered
              then (ok tt, write_tier audited d.tier d)
              else (raised delivery_error, audited))
          else (ok tt, audited))
      else (raised delivery_error, t)

  abbrev pub signal_decision : Policy → Call → SignalEvent → DispatchOutcome → DecisionDispatched
  signal_decision policy call sig outcome =
      build_decision policy call outcome sig.subject sig.severity (some sig.score) sig.tenant_id
        (concat ("decisions:" ∷ sig.signal_kind ∷ [])) sig.suppression_key
        (("signal_id", Primitive.str sig.event_id)
          ∷ ("signal_kind", Primitive.str sig.signal_kind)
          ∷ [])

  unfoldable pub dispatch_signal :
      Policy → Call → SignalEvent → DispatchOutcome → Topics → Result (Unit {0}) × Topics
  dispatch_signal policy call sig outcome t =
      publish call (signal_decision policy call sig outcome) t

  abbrev pub motif_decision :
      Policy → Call → MotifDetected → Subject → DispatchOutcome → DecisionDispatched
  motif_decision policy call m subject outcome =
      build_decision policy call outcome subject Severity.high m.score m.tenant_id
        (concat ("decisions:motif:" ∷ m.motif ∷ []))
        (some (concat (m.tenant_id ∷ ":motif:" ∷ m.motif ∷ ":" ∷ subject.id ∷ [])))
        (("motif", Primitive.str m.motif)
          ∷ ("motif_event_id", Primitive.str m.event_id)
          ∷ ("member_count", Primitive.int (length m.members))
          ∷ [])

  -- the body of `dispatch_motif`, by the motif's members
  unfoldable pub motif_to :
      Policy
      → Call
      → MotifDetected
      → DispatchOutcome
      → Topics
      → List Subject
      → Result (Unit {0}) × Topics
  motif_to policy call m outcome t [] = (raised no_members, t)
  motif_to policy call m outcome t (subject ∷ _) =
      publish call (motif_decision policy call m subject outcome) t

  unfoldable pub dispatch_motif :
      Policy → Call → MotifDetected → DispatchOutcome → Topics → Result (Unit {0}) × Topics
  unfolding motif_to
  dispatch_motif policy call m outcome t = motif_to policy call m outcome t m.members
