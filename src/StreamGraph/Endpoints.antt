-- ===== src/StreamGraph/Endpoints.antt =====
-- The edges of the translators of services/stream-graph/src/stream_graph/pipeline.py and the nodes
-- at their ends.
use fraudnet.Prelude.{
  ℕ, String, Bool, true, false, Option, none, some, List, [], ◌∷◌, ◌++◌, inl, inr, refl,
  if◌then◌else◌, truthy, or_zero,
}
use fraudnet.Prelude.Dict.{Dict}
use fraudnet.Schemas.{Primitive, VoiceEvent, VoiceKind, SmsEvent, DataEvent, DataKind, MoMoEvent}
use fraudnet.StreamGraph.Closed.{
  Has, IsClosed, nodes_after, IsClosed-append, Has-nodes_after, HasIf, HasIf-nodes_after,
}
use fraudnet.StreamGraph.Translate.{
  Node, GraphOp, upsert_node, upsert_edge, looks_like_ip, number, domain_node, ip_endpoint, wallet,
  callee_ops, imei_ops, translate_voice, sms_properties, is_message, sms_edge, translate_sms,
  node_if, queried, resolved, connected, connection_properties, flow_ops, translate_data, side_ops,
  moves_money, leaves_system, money_ops, translate_momo,
}

callee_ops-IsClosed :
    (kind : VoiceKind) (caller : String) (ts duration : ℕ) (callee : Option String)
    (seen : List Node)
    → Has (number caller) seen
    → IsClosed seen (callee_ops kind caller ts duration callee)
unfolding callee_ops
callee_ops-IsClosed kind caller ts duration none seen h = tt
callee_ops-IsClosed VoiceKind.call_start caller ts duration (some callee) seen h =
    (inr h, inl refl, tt)
callee_ops-IsClosed VoiceKind.call_end caller ts duration (some callee) seen h = tt
callee_ops-IsClosed VoiceKind.registration caller ts duration (some callee) seen h = tt
callee_ops-IsClosed VoiceKind.handover caller ts duration (some callee) seen h = tt

imei_ops-IsClosed :
    (caller : String) (ts : ℕ) (imei : Option String) (seen : List Node)
    → Has (number caller) seen
    → IsClosed seen (imei_ops caller ts imei)
unfolding imei_ops
imei_ops-IsClosed caller ts none seen h = tt
imei_ops-IsClosed caller ts (some imei) seen h = (inr h, inl refl, tt)

-- Every edge of a voice event comes after both its ends.
pub translate_voice-IsClosed : (ev : VoiceEvent) → IsClosed [] (translate_voice ev)
unfolding translate_voice
translate_voice-IsClosed ev =
    IsClosed-append (number ev.caller ∷ []) called _
      (callee_ops-IsClosed ev.kind ev.caller ev.event_ts_ms (or_zero ev.duration_s)
        (truthy ev.callee) (number ev.caller ∷ []) (inl refl))
      (imei_ops-IsClosed ev.caller ev.event_ts_ms (truthy ev.imei)
        (nodes_after (number ev.caller ∷ []) called)
        (Has-nodes_after (number ev.caller) (number ev.caller ∷ []) called (inl refl)))
  where
    called : List GraphOp
    called = callee_ops ev.kind ev.caller ev.event_ts_ms (or_zero ev.duration_s) (truthy ev.callee)

sms_edge-IsClosed :
    (b : Bool) (sender recipient : String) (props : Dict Primitive) (seen : List Node)
    → Has (number sender) seen
    → Has (number recipient) seen
    → IsClosed seen (sms_edge b sender recipient props)
unfolding sms_edge
sms_edge-IsClosed true sender recipient props seen hs hr = (hs, hr, tt)
sms_edge-IsClosed false sender recipient props seen hs hr = tt

-- Every edge of an SMS event comes after both its ends.
pub translate_sms-IsClosed : (ev : SmsEvent) → IsClosed [] (translate_sms ev)
unfolding translate_sms
translate_sms-IsClosed ev =
    sms_edge-IsClosed (is_message ev.kind) ev.sender ev.recipient
      (sms_properties ev.event_ts_ms (truthy ev.template_hash))
      (number ev.recipient ∷ number ev.sender ∷ []) (inr (inl refl)) (inl refl)

queried-IsClosed :
    (ts : ℕ) (kind : String) (msisdn domain : Option String) (seen : List Node)
    → HasIf number msisdn seen
    → HasIf domain_node domain seen
    → IsClosed seen (queried ts kind msisdn domain)
unfolding queried
queried-IsClosed ts kind (some m) (some d) seen hm hd = (hm, hd, tt)
queried-IsClosed ts kind none domain seen hm hd = tt
queried-IsClosed ts kind (some m) none seen hm hd = tt

resolved-IsClosed :
    (is_digits : String → Bool) (ts : ℕ) (domain ip : Option String) (seen : List Node)
    → HasIf domain_node domain seen
    → IsClosed seen (resolved is_digits ts domain ip)
unfolding resolved
resolved-IsClosed is_digits ts (some d) (some ip) seen h =
    elim (looks_like_ip is_digits ip)
      as (λ b. IsClosed seen (
        if b
        then upsert_node (ip_endpoint ip)
          ∷ upsert_edge "RESOLVED_TO" (domain_node d) (ip_endpoint ip)
              (("ts", Primitive.int ts) ∷ [])
          ∷ []
        else [])) [ true ↦ (inr h, inl refl, tt) | false ↦ tt ]
resolved-IsClosed is_digits ts none ip seen h = tt
resolved-IsClosed is_digits ts (some d) none seen h = tt

connected-IsClosed :
    (props : Dict Primitive) (msisdn domain rdata : Option String) (seen : List Node)
    → HasIf number msisdn seen
    → HasIf domain_node domain seen
    → IsClosed seen (connected props msisdn domain rdata)
unfolding connected
connected-IsClosed props none domain rdata seen hm hd = tt
connected-IsClosed props (some m) (some d) rdata seen hm hd = (hm, hd, tt)
connected-IsClosed props (some m) none (some ip) seen hm hd = (inr hm, inl refl, tt)
connected-IsClosed props (some m) none none seen hm hd = tt

flow_ops-IsClosed :
    (is_digits : String → Bool) (kind : DataKind) (ts : ℕ) (props : Dict Primitive)
    (msisdn domain rdata : Option String) (seen : List Node)
    → HasIf number msisdn seen
    → HasIf domain_node domain seen
    → IsClosed seen (flow_ops is_digits kind ts props msisdn domain rdata)
unfolding flow_ops
flow_ops-IsClosed is_digits DataKind.dns_query ts props msisdn domain rdata seen hm hd =
    queried-IsClosed ts "dns_query" msisdn domain seen hm hd
flow_ops-IsClosed is_digits DataKind.dns_response ts props msisdn domain rdata seen hm hd =
    IsClosed-append seen (queried ts "dns_response" msisdn domain)
      (resolved is_digits ts domain rdata)
      (queried-IsClosed ts "dns_response" msisdn domain seen hm hd)
      (resolved-IsClosed is_digits ts domain rdata _
        (HasIf-nodes_after domain_node domain seen (queried ts "dns_response" msisdn domain) hd))
flow_ops-IsClosed is_digits DataKind.ipdr_session ts props msisdn domain rdata seen hm hd =
    connected-IsClosed props msisdn domain rdata seen hm hd

node_if-IsClosed :
    (kind : String → Node) (o : Option String) (seen : List Node) → IsClosed seen (node_if kind o)
unfolding node_if
node_if-IsClosed kind none seen = tt
node_if-IsClosed kind (some id) seen = tt

node_if-HasIf :
    (kind : String → Node) (o : Option String) (seen : List Node)
    → HasIf kind o (nodes_after seen (node_if kind o))
unfolding node_if
node_if-HasIf kind none seen = tt
node_if-HasIf kind (some id) seen = inl refl

-- Every edge of a data event comes after both its ends, whatever `str.isdigit` answers.
pub translate_data-IsClosed :
    (is_digits : String → Bool) (ev : DataEvent) → IsClosed [] (translate_data is_digits ev)
unfolding translate_data
translate_data-IsClosed is_digits ev =
    IsClosed-append [] subscribers (domains ++ flows)
      (node_if-IsClosed number (truthy ev.msisdn) [])
      (IsClosed-append (nodes_after [] subscribers) domains flows
        (node_if-IsClosed domain_node (truthy ev.domain) (nodes_after [] subscribers))
        (flow_ops-IsClosed is_digits ev.kind ev.event_ts_ms (connection_properties ev)
          (truthy ev.msisdn) (truthy ev.domain) (truthy ev.rdata) _
          (HasIf-nodes_after number (truthy ev.msisdn) (nodes_after [] subscribers) domains
            (node_if-HasIf number (truthy ev.msisdn) []))
          (node_if-HasIf domain_node (truthy ev.domain) (nodes_after [] subscribers))))
  where
    flows : List GraphOp
    flows =
        flow_ops is_digits ev.kind ev.event_ts_ms (connection_properties ev) (truthy ev.msisdn)
          (truthy ev.domain) (truthy ev.rdata)

    subscribers : List GraphOp
    subscribers = node_if number (truthy ev.msisdn)

    domains : List GraphOp
    domains = node_if domain_node (truthy ev.domain)

side_ops-IsClosed :
    (w msisdn : Option String) (seen : List Node) → IsClosed seen (side_ops w msisdn)
unfolding side_ops
side_ops-IsClosed none msisdn seen = tt
side_ops-IsClosed (some w) none seen = tt
side_ops-IsClosed (some w) (some m) seen = (inl refl, inr (inl refl), tt)

side_ops-HasIf :
    (w msisdn : Option String) (seen : List Node)
    → HasIf wallet w (nodes_after seen (side_ops w msisdn))
unfolding side_ops
side_ops-HasIf none msisdn seen = tt
side_ops-HasIf (some w) none seen = inl refl
side_ops-HasIf (some w) (some m) seen = inr (inl refl)

money_ops-IsClosed :
    (moves leaves : Bool) (props : Dict Primitive) (sender recipient hash : Option String)
    (seen : List Node)
    → HasIf wallet sender seen
    → HasIf wallet recipient seen
    → IsClosed seen (money_ops moves leaves props sender recipient hash)
unfolding money_ops
money_ops-IsClosed true leaves props (some s) (some r) hash seen hs hr = (hs, hr, tt)
money_ops-IsClosed true true props (some s) none (some a) seen hs hr = (inr hs, inl refl, tt)
money_ops-IsClosed true true props (some s) none none seen hs hr = tt
money_ops-IsClosed true false props (some s) none hash seen hs hr = tt
money_ops-IsClosed true true props none recipient hash seen hs hr = tt
money_ops-IsClosed true false props none recipient hash seen hs hr = tt
money_ops-IsClosed false leaves props sender recipient hash seen hs hr = tt

-- Every edge of a mobile money event comes after both its ends.
pub translate_momo-IsClosed : (ev : MoMoEvent) → IsClosed [] (translate_momo ev)
unfolding translate_momo
translate_momo-IsClosed ev =
    IsClosed-append [] senders (recipients ++ money)
      (side_ops-IsClosed (truthy ev.sender_wallet_id) (truthy ev.sender_msisdn) [])
      (IsClosed-append (nodes_after [] senders) recipients money
        (side_ops-IsClosed (truthy ev.recipient_wallet_id) (truthy ev.recipient_msisdn) _)
        (money_ops-IsClosed (moves_money ev.kind) (leaves_system ev.counterparty_kind) _
          (truthy ev.sender_wallet_id) (truthy ev.recipient_wallet_id)
          (truthy ev.counterparty_account_hash) _
          (HasIf-nodes_after wallet (truthy ev.sender_wallet_id) (nodes_after [] senders) recipients
            (side_ops-HasIf (truthy ev.sender_wallet_id) (truthy ev.sender_msisdn) []))
          (side_ops-HasIf (truthy ev.recipient_wallet_id) (truthy ev.recipient_msisdn)
            (nodes_after [] senders))))
  where
    money : List GraphOp
    money =
        money_ops (moves_money ev.kind) (leaves_system ev.counterparty_kind)
          (("ts", Primitive.int ev.event_ts_ms) ∷ ("amount", Primitive.int ev.amount_minor) ∷ [])
          (truthy ev.sender_wallet_id) (truthy ev.recipient_wallet_id)
          (truthy ev.counterparty_account_hash)

    senders : List GraphOp
    senders = side_ops (truthy ev.sender_wallet_id) (truthy ev.sender_msisdn)

    recipients : List GraphOp
    recipients = side_ops (truthy ev.recipient_wallet_id) (truthy ev.recipient_msisdn)

-- In the operations of every voice, SMS, data and mobile money event, each edge comes after the
-- nodes at both its ends, whatever `str.isdigit` answers for the data of a DNS record.
pub translate-IsClosed :
    (is_digits : String → Bool) (voice : VoiceEvent) (sms : SmsEvent) (flow : DataEvent)
    (momo : MoMoEvent)
    → IsClosed [] (translate_voice voice)
      × IsClosed [] (translate_sms sms)
      × IsClosed [] (translate_data is_digits flow)
      × IsClosed [] (translate_momo momo)
translate-IsClosed is_digits voice sms flow momo = (
  translate_voice-IsClosed voice,
  translate_sms-IsClosed sms,
  translate_data-IsClosed is_digits flow,
  translate_momo-IsClosed momo,
)
