-- ===== src/StreamGraph/Translate.antt =====
-- services/stream-graph/src/stream_graph/pipeline.py: the operations of each kind of event. The text
-- of an optional field is read by its truth, so `truthy` stands before each `if`.
-- `is_digits` stands for `str.isdigit`, which reads the Unicode tables.
use fraudnet.Prelude.{
  ℕ, ltb, leb, ◌&&◌, ◌||◌, String, Bool, true, false, Option, none, some, List, [], ◌∷◌, ◌++◌,
  if◌then◌else◌, truthy, or_zero,
}
use fraudnet.Prelude.Dict.{Dict}
use fraudnet.Prelude.Text.{count_char}
use fraudnet.Domain.Labels.{split_dot}
use fraudnet.Schemas.{
  Primitive, VoiceEvent, VoiceKind, SmsEvent, SmsKind, DataEvent, DataKind, MoMoEvent,
  MoMoEventType, CounterpartyKind,
}

-- A node as its kind and its id.
abbrev pub Node : Type 0
Node = String × String

pub data GraphOp : Type 0 where
  upsert_node : Node → GraphOp
  upsert_edge : String → Node → Node → Dict Primitive → GraphOp

-- The nodes that the translators name.
abbrev pub number : String → Node
number id = ("Number", id)

abbrev pub device : String → Node
device id = ("Device", id)

abbrev pub domain_node : String → Node
domain_node id = ("Domain", id)

abbrev pub ip_endpoint : String → Node
ip_endpoint id = ("IPEndpoint", id)

abbrev pub wallet : String → Node
wallet id = ("Wallet", id)

abbrev pub account : String → Node
account id = ("Account", id)

-- The callee, and the call where one starts.
unfoldable pub callee_ops : VoiceKind → String → ℕ → ℕ → Option String → List GraphOp
callee_ops kind caller ts duration none = []
callee_ops VoiceKind.call_start caller ts duration (some callee) =
    upsert_node (number callee)
    ∷ upsert_edge "CALLED" (number caller) (number callee)
        (("ts", Primitive.int ts) ∷ ("duration", Primitive.int duration) ∷ [])
    ∷ []
callee_ops _ caller ts duration (some callee) = upsert_node (number callee) ∷ []

unfoldable pub imei_ops : String → ℕ → Option String → List GraphOp
imei_ops caller ts none = []
imei_ops caller ts (some imei) =
    upsert_node (device imei)
    ∷ upsert_edge "USED" (number caller) (device imei) (("since", Primitive.int ts) ∷ [])
    ∷ []

unfoldable pub translate_voice : VoiceEvent → List GraphOp
translate_voice ev =
    upsert_node (number ev.caller)
      ∷ callee_ops ev.kind ev.caller ev.event_ts_ms (or_zero ev.duration_s) (truthy ev.callee)
    ++ imei_ops ev.caller ev.event_ts_ms (truthy ev.imei)

abbrev pub sms_properties : ℕ → Option String → Dict Primitive
sms_properties ts none = ("ts", Primitive.int ts) ∷ []
sms_properties ts (some hash) =
    ("ts", Primitive.int ts) ∷ ("template_hash", Primitive.str hash) ∷ []

-- `ev.kind in {"mt", "mo"}`
abbrev pub is_message : SmsKind → Bool
is_message SmsKind.mt_delivery_receipt = false
is_message _ = true

unfoldable pub sms_edge : Bool → String → String → Dict Primitive → List GraphOp
sms_edge true sender recipient props =
    upsert_edge "SMSED" (number sender) (number recipient) props ∷ []
sms_edge false sender recipient props = []

unfoldable pub translate_sms : SmsEvent → List GraphOp
translate_sms ev =
    upsert_node (number ev.sender)
    ∷ upsert_node (number ev.recipient)
    ∷ sms_edge (is_message ev.kind) ev.sender ev.recipient
        (sms_properties ev.event_ts_ms (truthy ev.template_hash))

-- The node of an optional id.
unfoldable pub node_if : (String → Node) → Option String → List GraphOp
node_if kind none = []
node_if kind (some id) = upsert_node (kind id) ∷ []

unfoldable pub queried : ℕ → String → Option String → Option String → List GraphOp
queried ts kind (some msisdn) (some domain) =
    upsert_edge "QUERIED" (number msisdn) (domain_node domain)
      (("ts", Primitive.int ts) ∷ ("kind", Primitive.str kind) ∷ [])
    ∷ []
queried ts kind _ _ = []

module _ (is_digits : String → Bool) where
  all_digits : List String → Bool
  all_digits [] = true
  all_digits (p ∷ ps) = if is_digits p then all_digits ps else false

  -- `_looks_like_ip`
  unfoldable pub looks_like_ip : String → Bool
  unfolding all_digits
  looks_like_ip s =
      ltb 0 (count_char b':' s)
      || ((leb 3 (count_char b'.' s) && leb (count_char b'.' s) 3) && all_digits (split_dot s))

  unfoldable pub resolved : ℕ → Option String → Option String → List GraphOp
  resolved ts (some domain) (some ip) =
      if looks_like_ip ip
      then upsert_node (ip_endpoint ip)
        ∷ upsert_edge "RESOLVED_TO" (domain_node domain) (ip_endpoint ip)
            (("ts", Primitive.int ts) ∷ [])
        ∷ []
      else []
  resolved ts _ _ = []

unfoldable pub connected :
    Dict Primitive → Option String → Option String → Option String → List GraphOp
connected props none _ _ = []
connected props (some msisdn) (some domain) _ =
    upsert_edge "CONNECTED" (number msisdn) (domain_node domain) props ∷ []
connected props (some msisdn) none (some ip) =
    upsert_node (ip_endpoint ip)
    ∷ upsert_edge "CONNECTED" (number msisdn) (ip_endpoint ip) props
    ∷ []
connected props (some msisdn) none none = []

abbrev pub connection_properties : DataEvent → Dict Primitive
connection_properties ev =
    ("ts", Primitive.int ev.event_ts_ms)
    ∷ ("bytes_up", Primitive.int (or_zero ev.bytes_up))
    ∷ ("bytes_down", Primitive.int (or_zero ev.bytes_down))
    ∷ []

-- What follows the nodes, by the kind of the event.
unfoldable pub flow_ops :
    (String → Bool)
    → DataKind
    → ℕ
    → Dict Primitive
    → Option String
    → Option String
    → Option String
    → List GraphOp
flow_ops is_digits DataKind.dns_query ts props msisdn domain rdata =
    queried ts "dns_query" msisdn domain
flow_ops is_digits DataKind.dns_response ts props msisdn domain rdata =
    queried ts "dns_response" msisdn domain ++ resolved is_digits ts domain rdata
flow_ops is_digits DataKind.ipdr_session ts props msisdn domain rdata =
    connected props msisdn domain rdata

unfoldable pub translate_data : (String → Bool) → DataEvent → List GraphOp
translate_data is_digits ev =
    node_if number (truthy ev.msisdn)
    ++ (node_if domain_node (truthy ev.domain)
        ++ flow_ops is_digits ev.kind ev.event_ts_ms (connection_properties ev) (truthy ev.msisdn)
            (truthy ev.domain) (truthy ev.rdata))

-- The wallet of one side, and its owner.
unfoldable pub side_ops : Option String → Option String → List GraphOp
side_ops none msisdn = []
side_ops (some w) none = upsert_node (wallet w) ∷ []
side_ops (some w) (some msisdn) =
    upsert_node (wallet w)
    ∷ upsert_node (number msisdn)
    ∷ upsert_edge "OWNS" (number msisdn) (wallet w) []
    ∷ []

-- `ev.kind not in {REVERSAL, CASH_IN}`
abbrev pub moves_money : MoMoEventType → Bool
moves_money MoMoEventType.reversal = false
moves_money MoMoEventType.cash_in = false
moves_money _ = true

-- `ev.counterparty_kind in {"bank", "external"}`
abbrev pub leaves_system : CounterpartyKind → Bool
leaves_system CounterpartyKind.bank = true
leaves_system CounterpartyKind.external = true
leaves_system _ = false

unfoldable pub money_ops :
    Bool → Bool → Dict Primitive → Option String → Option String → Option String → List GraphOp
money_ops true leaves props (some sender) (some recipient) _ =
    upsert_edge "SENT" (wallet sender) (wallet recipient) props ∷ []
money_ops true true props (some sender) none (some hash) =
    upsert_node (account hash)
    ∷ upsert_edge "CASHED_OUT_TO" (wallet sender) (account hash) props
    ∷ []
money_ops _ _ props _ _ _ = []

unfoldable pub translate_momo : MoMoEvent → List GraphOp
translate_momo ev =
    side_ops (truthy ev.sender_wallet_id) (truthy ev.sender_msisdn)
    ++ (side_ops (truthy ev.recipient_wallet_id) (truthy ev.recipient_msisdn)
        ++ money_ops (moves_money ev.kind) (leaves_system ev.counterparty_kind)
            (("ts", Primitive.int ev.event_ts_ms) ∷ ("amount", Primitive.int ev.amount_minor) ∷ [])
            (truthy ev.sender_wallet_id) (truthy ev.recipient_wallet_id)
            (truthy ev.counterparty_account_hash))
