-- ===== src/ActionTier1/Actuators.antt =====
-- services/action-tier1/src/action_tier1/actuators.py. The replies of the services called are
-- inputs, and the calls made are returned beside the result. `clean` stands for
-- `strip().lower().rstrip(".")` of `str`.
use fraudnet.Prelude.{
  ℕ, String, Bool, true, false, not, ◌&&◌, Option, none, some, List, [], ◌∷◌, ◌==◌, leb,
  if◌then◌else◌,
}
use fraudnet.Prelude.Dict
use fraudnet.Prelude.Dict.{Dict}
use fraudnet.Prelude.Text.{concat, str_nat}
use fraudnet.Domain.Labels.{label_match}
use fraudnet.Schemas.{Primitive, DecisionDispatched, entity_value}

pub data Outcome : Type 0 where
  executed suppressed failed dry_run : Outcome

pub record ActuationResult : Type 0 where
  pub outcome : Outcome
  pub actuator_id : String
  pub error : Option String

-- How a POST ends: with a status, by the timeout, or by another exception.
pub data Reply : Type 0 where
  status : ℕ → Reply
  timeout : Reply
  broken : String → Reply

-- The POST to url-intel, whose answer has `added` and whether its reason is "allow_listed".
pub data AddReply : Type 0 where
  answered : ℕ → Bool → Bool → AddReply
  timeout : AddReply
  broken : String → AddReply

-- The calls that an actuator makes.
pub data HttpCall : Type 0 where
  post : Dict Primitive → HttpCall
  blocklist_add : String → HttpCall
  sinkhole_add : String → HttpCall

abbrev pub result : Outcome → String → Option String → ActuationResult
result outcome id error = record { outcome = outcome; actuator_id = id; error = error }

-- `_HttpActuator._post`, by how the call ends
unfoldable pub post_result : String → Reply → ActuationResult
post_result id (Reply.status s) =
    if leb 400 s
    then result failed id (some (concat ("http " ∷ str_nat s ∷ [])))
    else result executed id none
post_result id Reply.timeout = result failed id (some "timeout")
post_result id (Reply.broken error) = result failed id (some error)

-- The subclasses of `_HttpActuator`.
pub data HttpActuator : Type 0 where
  volte_tag url_block sms_block momo_send_with_care : HttpActuator
  otp_hold : ℕ → HttpActuator

abbrev pub wanted_kind : HttpActuator → String
wanted_kind HttpActuator.url_block = "url"
wanted_kind HttpActuator.momo_send_with_care = "wallet"
wanted_kind _ = "number"

-- `decision.metadata.get("caller", "")`
abbrev pub caller_of : DecisionDispatched → Primitive
caller_of d = Dict.get_or "caller" (Primitive.str "") d.metadata

unfoldable pub payload : HttpActuator → DecisionDispatched → Dict Primitive
payload HttpActuator.volte_tag d =
    ("msisdn", Primitive.str d.subject.id)
    ∷ ("tag", Primitive.str "Suspected SPAM")
    ∷ ("decision_id", Primitive.str d.decision_id)
    ∷ ("policy_version", Primitive.str d.policy_version)
    ∷ []
payload HttpActuator.url_block d =
    ("url", Primitive.str d.subject.id)
    ∷ ("decision_id", Primitive.str d.decision_id)
    ∷ ("policy_version", Primitive.str d.policy_version)
    ∷ []
payload HttpActuator.sms_block d =
    ("msisdn", Primitive.str d.subject.id)
    ∷ ("block_kind", Primitive.str "outbound_sms")
    ∷ ("decision_id", Primitive.str d.decision_id)
    ∷ []
payload HttpActuator.momo_send_with_care d =
    ("wallet_id", Primitive.str d.subject.id)
    ∷ ("prompt", Primitive.str "send_with_care")
    ∷ ("decision_id", Primitive.str d.decision_id)
    ∷ []
payload (HttpActuator.otp_hold hold_duration_s) d =
    ("msisdn", Primitive.str d.subject.id)
    ∷ ("hold_duration_s", Primitive.int hold_duration_s)
    ∷ ("prompt", Primitive.str "otp_fraud_warning")
    ∷ ("caller", caller_of d)
    ∷ ("decision_id", Primitive.str d.decision_id)
    ∷ ("policy_version", Primitive.str d.policy_version)
    ∷ []

-- `execute` of the subclasses
unfoldable pub execute_http :
    HttpActuator → String → Reply → DecisionDispatched → ActuationResult × List HttpCall
execute_http a id reply d =
    if entity_value d.subject.kind == wanted_kind a
    then (post_result id reply, post (payload a d) ∷ [])
    else (result failed id (some (concat ("not a " ∷ wanted_kind a ∷ " subject" ∷ []))), [])

-- `_is_locally_allow_listed`
unfoldable pub is_locally_allow_listed : (String → String) → List String → String → Bool
is_locally_allow_listed clean allow_list domain =
    let d = clean domain in if d == "" then false else label_match allow_list d

-- The step at the sinkhole, without one for an empty URL.
unfoldable pub push_sinkhole : String → Bool → Reply → String → ActuationResult × List HttpCall
push_sinkhole id false reply domain = (result executed id none, [])
push_sinkhole id true (Reply.status s) domain = (
  if leb 400 s
      then result failed id (some (concat ("sinkhole http " ∷ str_nat s ∷ [])))
      else result executed id none,
  sinkhole_add domain ∷ [],
)
push_sinkhole id true Reply.timeout domain =
    (result failed id (some "timeout"), sinkhole_add domain ∷ [])
push_sinkhole id true (Reply.broken error) domain =
    (result failed id (some error), sinkhole_add domain ∷ [])

-- The two HTTP steps of `DnsSinkholeActuator.execute`.
unfoldable pub register :
    String → Bool → AddReply → Reply → String → ActuationResult × List HttpCall
register id has_sinkhole (AddReply.answered s added allow_listed) reply domain =
    let pushed = push_sinkhole id has_sinkhole reply domain in
    if leb 400 s
    then (
      result failed id (some (concat ("url-intel http " ∷ str_nat s ∷ []))),
      blocklist_add domain ∷ [],
    )
    else if not added && allow_listed
    then (result suppressed id (some "allow_listed"), blocklist_add domain ∷ [])
    else (pushed.0, blocklist_add domain ∷ pushed.1)
register id has_sinkhole AddReply.timeout reply domain =
    (result failed id (some "timeout"), blocklist_add domain ∷ [])
register id has_sinkhole (AddReply.broken error) reply domain =
    (result failed id (some error), blocklist_add domain ∷ [])

-- `DnsSinkholeActuator.execute`
unfoldable pub execute_sinkhole :
    (String → String)
    → List String
    → String
    → Bool
    → AddReply
    → Reply
    → DecisionDispatched
    → ActuationResult × List HttpCall
execute_sinkhole clean allow_list id has_sinkhole added reply d =
    if not (entity_value d.subject.kind == "url")
    then (result failed id (some "not a url subject"), [])
    else if is_locally_allow_listed clean allow_list d.subject.id
    then (result suppressed id (some "local_allow_listed"), [])
    else register id has_sinkhole added reply d.subject.id
