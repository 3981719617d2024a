-- ===== src/StreamFeatures/History.antt =====
-- What one event does to the call window of a number, and the history of a number's calls.
use fraudnet.Prelude.{
  ℕ, ◌≤◌, ◌≡◌, refl, sym, ap, subst, ◌∙◌, String, true, false, Option, none, some, List, [], ◌∷◌,
  ◌++◌, drop_while, arith, truthy, max, ◌==◌, eq_iff, eq_refl, if◌then◌else◌, Bool-cases,
  Option-cases, inl, inr,
}
use mathlib.Core.List.{append-nil}
use fraudnet.Prelude.Dict
use fraudnet.Prelude.StringSet
use fraudnet.Schemas.{VoiceEvent, SmsEvent, DataEvent, VoiceKind}
use fraudnet.StreamFeatures.State.{
  NumberState, FeaturePipeline, NumberFeatures, new_number, older, w1h, prune_number, is_late,
  compute_number_features, no_number_features,
}
use fraudnet.StreamFeatures.Feed.{
  number_features, feed_number, voice_update, sms_update, data_update, add_call, add_imei,
  add_template, add_query, add_volume, data_step, feed_voice, feed_sms, feed_data,
}
use fraudnet.StreamFeatures.Run.{
  Event, accepted, lookup-feed_number, feed, feed_data_absent, feed_data_at, numbers-feed_momo,
}

-- `call_times` after an update: the old ones, with the event's time behind them for a call.
unfoldable pub call_of : ℕ → VoiceKind → Option String → List ℕ
call_of ts VoiceKind.call_start (some c) = ts ∷ []
call_of ts _ _ = []

call_times-add_call :
    (ts : ℕ) (kind : VoiceKind) (callee : Option String) (ns : NumberState)
    → (add_call ts kind callee ns).call_times ≡ ns.call_times ++ call_of ts kind callee
unfolding add_call call_of
call_times-add_call ts VoiceKind.call_start (some c) ns = refl
call_times-add_call ts VoiceKind.call_start none ns = sym (append-nil ns.call_times)
call_times-add_call ts _ callee ns = sym (append-nil ns.call_times)

add_imei-same :
    (ts : ℕ) (imei : Option String) (ns : NumberState)
    → ((add_imei ts imei ns).call_times ≡ ns.call_times)
      × ((add_imei ts imei ns).high_ts_ms ≡ ns.high_ts_ms)
unfolding add_imei
add_imei-same ts none ns = (refl, refl)
add_imei-same ts (some imei) ns = (refl, refl)

high-add_call :
    (ts : ℕ) (kind : VoiceKind) (callee : Option String) (ns : NumberState)
    → (add_call ts kind callee ns).high_ts_ms ≡ ns.high_ts_ms
unfolding add_call
high-add_call ts kind callee ns = ground arith

pub call_times-voice_update :
    (ev : VoiceEvent) (ns : NumberState)
    → ((voice_update ev ns).call_times
        ≡ ns.call_times ++ call_of ev.event_ts_ms ev.kind (truthy ev.callee))
      × ((voice_update ev ns).high_ts_ms ≡ ns.high_ts_ms)
unfolding voice_update
call_times-voice_update ev ns =
    let called = add_call ev.event_ts_ms ev.kind (truthy ev.callee) ns in
    let same = add_imei-same ev.event_ts_ms (truthy ev.imei) called in
    (
      same.0 ∙ call_times-add_call ev.event_ts_ms ev.kind (truthy ev.callee) ns,
      same.1 ∙ high-add_call ev.event_ts_ms ev.kind (truthy ev.callee) ns,
    )

pub call_times-sms_update :
    (ev : SmsEvent) (ns : NumberState)
    → ((sms_update ev ns).call_times ≡ ns.call_times ++ [])
      × ((sms_update ev ns).high_ts_ms ≡ ns.high_ts_ms)
unfolding sms_update add_template
call_times-sms_update ev ns = ground (arith, append-nil ns.call_times)

pub call_times-data_update :
    (set : List String) (ev : DataEvent) (ns : NumberState)
    → ((data_update set ev ns).call_times ≡ ns.call_times ++ [])
      × ((data_update set ev ns).high_ts_ms ≡ ns.high_ts_ms)
unfolding data_update data_step add_query add_volume
call_times-data_update set ev ns = ground (arith, append-nil ns.call_times)

-- The time of an event that concerns the number `m`, and the calls that it records.
unfoldable pub touch_at : String → String → ℕ → List ℕ → Option (ℕ × List ℕ)
touch_at m key ts calls = if key == m then some (ts, calls) else none

unfoldable pub touch_data : String → ℕ → Option String → Option (ℕ × List ℕ)
unfolding touch_at
touch_data m ts none = none
touch_data m ts (some key) = touch_at m key ts []

unfoldable pub touch : String → Event → Option (ℕ × List ℕ)
unfolding touch_data call_of touch_at
touch m (Event.voice ev) =
    touch_at m ev.caller ev.event_ts_ms (call_of ev.event_ts_ms ev.kind (truthy ev.callee))
touch m (Event.sms ev) = touch_at m ev.sender ev.event_ts_ms []
touch m (Event.flow ev) = touch_data m ev.event_ts_ms (truthy ev.msisdn)
touch m (Event.momo ev) = none

-- All calls of `m`, in the order of the events.
unfoldable pub calls : String → List Event → List ℕ
unfolding touch
calls m [] = []
calls m (ev ∷ evs) = elim (touch m ev) [ none ↦ calls m evs | some (ts, c) ↦ c ++ calls m evs ]

-- The time of the last event of `m`.
unfoldable pub last_seen : String → ℕ → List Event → ℕ
unfolding touch
last_seen m high [] = high
last_seen m high (ev ∷ evs) = elim (touch m ev) [
  | none ↦ last_seen m high evs
  | some (ts, c) ↦ last_seen m ts evs
]

-- The events of `m` come in time order.
abbrev pub InOrder : String → ℕ → List Event → Type 0
InOrder m high [] = Unit
InOrder m high (ev ∷ evs) = elim (touch m ev) [
  | none ↦ InOrder m high evs
  | some (ts, c) ↦ (high ≤ ts) × InOrder m ts evs
]

abbrev pub or_new : Option NumberState → NumberState
or_new none = new_number
or_new (some ns) = ns

abbrev pub state_of : FeaturePipeline → String → NumberState
state_of p m = Dict.get_or m new_number p.numbers

-- What an event of `m` at `ts` with the calls `c` does to the state of `m`, if it is in order.
abbrev pub Advances : ℕ → List ℕ → NumberState → NumberState → Type 0
Advances ts c ns ns' =
    (ns'.high_ts_ms ≡ ts) × (ns'.call_times ≡ drop_while (older w1h ts) (ns.call_times ++ c))

accepted-Advances :
    (update : NumberState → NumberState) (ts : ℕ) (c : List ℕ) (ns : NumberState)
    → ((ns : NumberState)
        → ((update ns).call_times ≡ ns.call_times ++ c) × ((update ns).high_ts_ms ≡ ns.high_ts_ms))
    → ns.high_ts_ms ≤ ts
    → Advances ts c ns (accepted update ts ns)
unfolding prune_number
accepted-Advances update ts c ns h le =
    let u = h (record ns { high_ts_ms = max ns.high_ts_ms ts }) in
    (u.1 ∙ omega arith, ap (drop_while (older w1h ts)) u.0)

on_time : (lag high ts : ℕ) → high ≤ ts → is_late lag high ts ≡ false
unfolding is_late
on_time lag high ts h = ground arith

-- The state after an event that is not late, and after one that is.
pub state_of-accepted :
    (p : FeaturePipeline) (m : String) (ts : ℕ) (update : NumberState → NumberState)
    → is_late p.lateness (state_of p m).high_ts_ms ts ≡ false
    → state_of (feed_number p m ts update).0 m ≡ accepted update ts (state_of p m)
state_of-accepted p m ts update h =
    ap or_new {y = some (accepted update ts (state_of p m))}
      (lookup-feed_number p m ts update m ∙ rw (eq_refl, h) refl)

pub state_of-late :
    (p : FeaturePipeline) (m : String) (ts : ℕ) (update : NumberState → NumberState)
    → is_late p.lateness (state_of p m).high_ts_ms ts ≡ true
    → state_of (feed_number p m ts update).0 m ≡ state_of p m
state_of-late p m ts update h =
    ap or_new {y = some (state_of p m)} (lookup-feed_number p m ts update m ∙ rw (eq_refl, h) refl)

state_of-feed_number :
    (p : FeaturePipeline) (m : String) (ts : ℕ) (update : NumberState → NumberState)
    → (state_of p m).high_ts_ms ≤ ts
    → state_of (feed_number p m ts update).0 m ≡ accepted update ts (state_of p m)
state_of-feed_number p m ts update le =
    state_of-accepted p m ts update (on_time p.lateness (state_of p m).high_ts_ms ts le)

feed_number-Advances :
    (p : FeaturePipeline) (m key : String) (ts : ℕ) (c : List ℕ)
    (update : NumberState → NumberState)
    → ((ns : NumberState)
        → ((update ns).call_times ≡ ns.call_times ++ c) × ((update ns).high_ts_ms ≡ ns.high_ts_ms))
    → (key == m) ≡ true
    → (state_of p m).high_ts_ms ≤ ts
    → Advances ts c (state_of p m) (state_of (feed_number p key ts update).0 m)
feed_number-Advances p m key ts c update h same le =
    let e : key ≡ m = (eq_iff key m).0 same in
    subst (λ k. Advances ts c (state_of p m) (state_of (feed_number p k ts update).0 m)) (sym e)
      (subst (Advances ts c (state_of p m)) (sym (state_of-feed_number p m ts update le))
        (accepted-Advances update ts c (state_of p m) h le))

pub state_of-feed_number_ne :
    (p : FeaturePipeline) (m key : String) (ts : ℕ) (update : NumberState → NumberState)
    → (key == m) ≡ false
    → state_of (feed_number p key ts update).0 m ≡ state_of p m
state_of-feed_number_ne p m key ts update other =
    ap or_new {y = Dict.lookup m p.numbers} (lookup-feed_number p key ts update m ∙ rw other refl)

-- One event in order: it advances the state of `m`, or leaves it alone.
abbrev pub Steps : Option (ℕ × List ℕ) → NumberState → NumberState → Type 0
Steps none ns ns' = ns' ≡ ns
Steps (some (ts, c)) ns ns' = ns.high_ts_ms ≤ ts → Advances ts c ns ns'

feed_number-Steps :
    (p : FeaturePipeline) (m key : String) (ts : ℕ) (c : List ℕ)
    (update : NumberState → NumberState)
    → ((ns : NumberState)
        → ((update ns).call_times ≡ ns.call_times ++ c) × ((update ns).high_ts_ms ≡ ns.high_ts_ms))
    → Steps (touch_at m key ts c) (state_of p m) (state_of (feed_number p key ts update).0 m)
unfolding touch_at
feed_number-Steps p m key ts c update h = elim (Bool-cases (key == m)) [
  | inl same ↦ rw same (feed_number-Advances p m key ts c update h same)
  | inr other ↦ rw other (state_of-feed_number_ne p m key ts update other)
]

feed_data-Steps :
    (p : FeaturePipeline) (m : String) (ev : DataEvent)
    → Steps
        (touch_data m ev.event_ts_ms (truthy ev.msisdn))
        (state_of p m)
        (state_of (feed_data p ev).0 m)
unfolding touch_data
feed_data-Steps p m ev = elim (Option-cases (truthy ev.msisdn)) [
  | inl absent ↦ rw (absent, feed_data_absent p ev absent) refl
  | inr (key, found) ↦
      rw (found, feed_data_at p ev key found)
        (feed_number-Steps p m key ev.event_ts_ms [] (data_update p.suspicious ev)
          (call_times-data_update p.suspicious ev))
]

pub feed-Steps :
    (p : FeaturePipeline) (m : String) (ev : Event)
    → Steps (touch m ev) (state_of p m) (state_of (feed p ev) m)
unfolding touch feed feed_voice feed_sms
feed-Steps p m (Event.voice ev) =
    feed_number-Steps p m ev.caller ev.event_ts_ms _ (voice_update ev) (call_times-voice_update ev)
feed-Steps p m (Event.sms ev) =
    feed_number-Steps p m ev.sender ev.event_ts_ms [] (sms_update ev) (call_times-sms_update ev)
feed-Steps p m (Event.flow ev) = feed_data-Steps p m ev
feed-Steps p m (Event.momo ev) = rw (numbers-feed_momo p ev) refl

-- The features are read from the state, also where there is none yet.
pub features-or_new :
    (p : FeaturePipeline) (m : String)
    → number_features p m ≡ compute_number_features m (state_of p m) (state_of p m).high_ts_ms
unfolding number_features
features-or_new p m = of_option (Dict.lookup m p.numbers)
  where
    of_option :
        (o : Option NumberState)
        → (elim o as (λ x. NumberFeatures) [
          | none ↦ no_number_features m
          | some ns ↦ compute_number_features m ns ns.high_ts_ms
        ])
          ≡ compute_number_features m (or_new o) (or_new o).high_ts_ms
    of_option none = unfold compute_number_features StringSet.of_list in refl
    of_option (some ns) = refl
