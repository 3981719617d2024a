-- ===== src/StreamFeatures/Feed.antt =====
-- pipeline.py: `feed_voice`, `feed_sms`, `feed_data`, `feed_momo` and the read-only views. A handler
-- returns the pipeline that it leaves beside the features.
use fraudnet.Prelude.{
  ℕ, ◌+◌, max, String, Bool, true, false, Option, none, some, List, [], ◌∷◌, ◌++◌, ltb, or_zero,
  truthy, if◌then◌else◌,
}
use fraudnet.Prelude.Dict
use fraudnet.Domain.Labels.{label_match}
use fraudnet.Schemas.{
  VoiceEvent, SmsEvent, DataEvent, MoMoEvent, VoiceKind, DataKind, MoMoEventType,
}
use fraudnet.StreamFeatures.State.{
  NumberState, WalletState, NumberFeatures, WalletFeatures, FeaturePipeline, new_number, new_wallet,
  no_number_features, no_wallet_features, is_late, prune_number, prune_wallet,
  compute_number_features, compute_wallet_features,
}

unfoldable pub number_features : FeaturePipeline → String → NumberFeatures
number_features p m = elim (Dict.lookup m p.numbers) [
  | none ↦ no_number_features m
  | some ns ↦ compute_number_features m ns ns.high_ts_ms
]

unfoldable pub wallet_features : FeaturePipeline → String → WalletFeatures
wallet_features p w = elim (Dict.lookup w p.wallets) [
  | none ↦ no_wallet_features w
  | some ws ↦ compute_wallet_features w ws ws.high_ts_ms
]

-- `labels = domain.split("."); any(".".join(labels[i:]) in suspicious ...)`
unfoldable pub is_suspicious : List String → String → Bool
is_suspicious suspicious domain = label_match suspicious domain

-- What the three number handlers share: the state is made if it is absent; a late event is counted
-- and dropped; else the watermark rises, the handler's `update` runs, and the state is pruned.
unfoldable pub feed_number :
    FeaturePipeline → String → ℕ → (NumberState → NumberState) → FeaturePipeline × NumberFeatures
feed_number p m ts update =
    let ns = Dict.get_or m new_number p.numbers in
    let known = Dict.setdefault m new_number p.numbers in
    let late = record p { numbers = known; late_events_dropped = p.late_events_dropped + 1 } in
    let fed = prune_number (update (record ns { high_ts_ms = max ns.high_ts_ms ts })) ts in
    if is_late p.lateness ns.high_ts_ms ts
    then (late, number_features late m)
    else (record p { numbers = Dict.insert m fed known }, compute_number_features m fed ts)

-- `if ev.kind == "call_start" and ev.callee: ...`
unfoldable pub add_call : ℕ → VoiceKind → Option String → NumberState → NumberState
add_call ts VoiceKind.call_start (some callee) ns = record ns {
  call_times = ns.call_times ++ ts ∷ [];
  callees_1h = ns.callees_1h ++ (ts, callee) ∷ [];
}
add_call ts _ _ ns = ns

-- `if ev.imei: ...`
unfoldable pub add_imei : ℕ → Option String → NumberState → NumberState
add_imei ts (some imei) ns = record ns { imeis_30d = Dict.insert imei ts ns.imeis_30d }
add_imei ts none ns = ns

unfoldable pub voice_update : VoiceEvent → NumberState → NumberState
unfolding add_call add_imei
voice_update ev ns =
    add_imei ev.event_ts_ms (truthy ev.imei) (add_call ev.event_ts_ms ev.kind (truthy ev.callee) ns)

unfoldable pub feed_voice : FeaturePipeline → VoiceEvent → FeaturePipeline × NumberFeatures
feed_voice p ev = feed_number p ev.caller ev.event_ts_ms (voice_update ev)

-- `if ev.template_hash: ...`
unfoldable pub add_template : ℕ → Option String → NumberState → NumberState
add_template ts (some h) ns = record ns {
  sms_template_hashes = ns.sms_template_hashes ++ (ts, h) ∷ [];
}
add_template ts none ns = ns

unfoldable pub sms_update : SmsEvent → NumberState → NumberState
unfolding add_template
sms_update ev ns =
    add_template ev.event_ts_ms (truthy ev.template_hash)
      (record ns { sms_times = ns.sms_times ++ ev.event_ts_ms ∷ [] })

unfoldable pub feed_sms : FeaturePipeline → SmsEvent → FeaturePipeline × NumberFeatures
feed_sms p ev = feed_number p ev.sender ev.event_ts_ms (sms_update ev)

-- a DNS event with a domain
unfoldable pub add_query : ℕ → Bool → NumberState → NumberState
add_query ts suspect ns = record ns {
  dns_query_times = ns.dns_query_times ++ ts ∷ [];
  suspicious_dns_times =
      if suspect then ns.suspicious_dns_times ++ ts ∷ [] else ns.suspicious_dns_times;
}

-- an IPDR session of so many bytes
unfoldable pub add_volume : ℕ → ℕ → NumberState → NumberState
add_volume ts bytes ns =
    if ltb 0 bytes
    then record ns {
      data_volume_1h = ns.data_volume_1h ++ (ts, bytes) ∷ [];
      data_volume_baseline = ns.data_volume_baseline ++ (ts, bytes) ∷ [];
    }
    else ns

-- the `if`/`elif` on the kind
unfoldable pub data_step :
    List String → ℕ → DataKind → Option String → ℕ → NumberState → NumberState
data_step suspicious ts DataKind.ipdr_session domain bytes ns = add_volume ts bytes ns
data_step suspicious ts _ none bytes ns = ns
data_step suspicious ts _ (some d) bytes ns = add_query ts (is_suspicious suspicious d) ns

unfoldable pub data_update : List String → DataEvent → NumberState → NumberState
unfolding data_step add_query add_volume
data_update suspicious ev ns =
    data_step suspicious ev.event_ts_ms ev.kind (truthy ev.domain)
      (or_zero ev.bytes_up + or_zero ev.bytes_down) ns

-- `None` for an event without a subscriber, which changes nothing.
unfoldable pub feed_data : FeaturePipeline → DataEvent → FeaturePipeline × Option NumberFeatures
feed_data p ev = elim (truthy ev.msisdn) [
  | none ↦ (p, none)
  | some m ↦
      let (p', f) = feed_number p m ev.event_ts_ms (data_update p.suspicious ev) in (p', some f)
]

-- `a or b` on optional texts
unfoldable pub or_else : Option String → Option String → Option String
or_else (some a) b = some a
or_else none b = b

unfoldable pub is_reversal : MoMoEventType → Bool
is_reversal MoMoEventType.reversal = true
is_reversal _ = false

unfoldable pub add_txn : ℕ → ℕ → Bool → WalletState → WalletState
add_txn ts amount true ws = ws
add_txn ts amount false ws = record ws {
  txn_times = ws.txn_times ++ ts ∷ [];
  txn_amounts_24h = ws.txn_amounts_24h ++ (ts, amount) ∷ [];
}

unfoldable pub add_counterparty : ℕ → Option String → WalletState → WalletState
add_counterparty ts none ws = ws
add_counterparty ts (some c) ws = record ws {
  counterparties_24h = ws.counterparties_24h ++ (ts, c) ∷ [];
}

unfoldable pub momo_update : MoMoEvent → WalletState → WalletState
unfolding add_txn add_counterparty is_reversal or_else
momo_update ev ws =
    add_counterparty ev.event_ts_ms
      (or_else (truthy ev.recipient_wallet_id) (truthy ev.counterparty_account_hash))
      (add_txn ev.event_ts_ms ev.amount_minor (is_reversal ev.kind) ws)

unfoldable pub feed_wallet : FeaturePipeline → String → MoMoEvent → FeaturePipeline × WalletFeatures
unfolding momo_update
feed_wallet p w ev =
    let ts = ev.event_ts_ms in
    let ws = Dict.get_or w new_wallet p.wallets in
    let known = Dict.setdefault w new_wallet p.wallets in
    let late = record p { wallets = known; late_events_dropped = p.late_events_dropped + 1 } in
    let fed = prune_wallet (momo_update ev (record ws { high_ts_ms = max ws.high_ts_ms ts })) ts in
    if is_late p.lateness ws.high_ts_ms ts
    then (late, wallet_features late w)
    else (record p { wallets = Dict.insert w fed known }, compute_wallet_features w fed ts)

unfoldable pub feed_momo : FeaturePipeline → MoMoEvent → FeaturePipeline × Option WalletFeatures
feed_momo p ev = elim (or_else (truthy ev.sender_wallet_id) (truthy ev.recipient_wallet_id)) [
  | none ↦ (p, none)
  | some w ↦ let (p', f) = feed_wallet p w ev in (p', some f)
]
