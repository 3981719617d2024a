-- ===== src/StreamFeatures/Run.antt =====
-- A run of the pipeline over a sequence of events, in the order in which the runner
-- (stream_features/runner.py) takes them from the four topics, and the rule for invariants of the
-- per-number states.
use fraudnet.Prelude.{
  ℕ, ◌≡◌, refl, sym, subst, ◌∙◌, Option, String, false, some, none, List, [], ◌∷◌, max, arith,
  Bool-cases, Option-cases, inl, inr, some_eq, truthy, eq_iff, ◌==◌, if◌then◌else◌,
}
use fraudnet.Prelude.Dict
use fraudnet.Prelude.Dict.{lookup-insert, lookup-setdefault}
use fraudnet.Schemas.{VoiceEvent, SmsEvent, DataEvent, MoMoEvent}
use fraudnet.StreamFeatures.State.{NumberState, FeaturePipeline, new_number, prune_number, is_late}
use fraudnet.StreamFeatures.Feed.{
  feed_number, feed_wallet, feed_voice, feed_sms, feed_data, feed_momo, voice_update, sms_update,
  data_update,
}

pub data Event : Type 0 where
  voice : VoiceEvent → Event
  sms : SmsEvent → Event
  flow : DataEvent → Event
  momo : MoMoEvent → Event

unfoldable pub feed : FeaturePipeline → Event → FeaturePipeline
feed p (voice ev) = (feed_voice p ev).0
feed p (sms ev) = (feed_sms p ev).0
feed p (flow ev) = (feed_data p ev).0
feed p (momo ev) = (feed_momo p ev).0

unfoldable pub run : FeaturePipeline → List Event → FeaturePipeline
run p [] = p
run p (ev ∷ evs) = run (feed p ev) evs

-- `FeaturePipeline(watermark_lateness_ms=..., suspicious_domains=...)`
abbrev pub new_pipeline : ℕ → List String → FeaturePipeline
new_pipeline lateness suspicious = record {
  numbers = [];
  wallets = [];
  lateness = lateness;
  suspicious = suspicious;
  late_events_dropped = 0;
}

-- Every number's state satisfies `P`.
abbrev pub AllNumbers : (NumberState → Type 0) → FeaturePipeline → Type 0
AllNumbers P p = (m : String) (ns : NumberState) → Dict.lookup m p.numbers ≡ some ns → P ns

-- The state that an accepted event leaves.
abbrev pub accepted : (NumberState → NumberState) → ℕ → NumberState → NumberState
accepted update ts ns = prune_number (update (record ns { high_ts_ms = max ns.high_ts_ms ts })) ts

pub numbers-feed_momo :
    (p : FeaturePipeline) (ev : MoMoEvent) → (feed_momo p ev).0.numbers ≡ p.numbers
unfolding feed_momo feed_wallet
numbers-feed_momo p ev = ground arith

-- A data event without a subscriber changes nothing; one with a subscriber is a number event.
pub feed_data_absent :
    (p : FeaturePipeline) (ev : DataEvent) → truthy ev.msisdn ≡ none → (feed_data p ev).0 ≡ p
unfolding feed_data
feed_data_absent p ev e = rw (e, feed_data) refl

pub feed_data_at :
    (p : FeaturePipeline) (ev : DataEvent) (m : String)
    → truthy ev.msisdn ≡ some m
    → (feed_data p ev).0 ≡ (feed_number p m ev.event_ts_ms (data_update p.suspicious ev)).0
unfolding feed_data
feed_data_at p ev m e = rw (e, feed_data) refl

pub lateness-feed : (p : FeaturePipeline) (ev : Event) → (feed p ev).lateness ≡ p.lateness
unfolding feed feed_voice feed_sms feed_data feed_momo feed_number feed_wallet
lateness-feed p (voice ev) = ground arith
lateness-feed p (sms ev) = ground arith
lateness-feed p (flow ev) = ground arith
lateness-feed p (momo ev) = ground arith

-- The state of `m` after an event at `ts`: as it was if the event is late.
abbrev pub state_after : FeaturePipeline → String → ℕ → (NumberState → NumberState) → NumberState
state_after p m ts update =
    let ns = Dict.get_or m new_number p.numbers in
    if is_late p.lateness ns.high_ts_ms ts then ns else accepted update ts ns

-- An event for `m` replaces the state of `m` and no other.
pub lookup-feed_number :
    (p : FeaturePipeline) (m : String) (ts : ℕ) (update : NumberState → NumberState) (j : String)
    → Dict.lookup j (feed_number p m ts update).0.numbers
      ≡ (if m == j then some (state_after p m ts update) else Dict.lookup j p.numbers)
unfolding feed_number
lookup-feed_number p m ts update j =
    let ns = Dict.get_or m new_number p.numbers in
    elim (Bool-cases (is_late p.lateness ns.high_ts_ms ts)) [
      | inl late ↦ rw (late, lookup-setdefault) refl
      | inr on_time ↦
          rw (on_time, lookup-insert)
            (ground (arith, eq_iff m j, lookup-setdefault m j new_number p.numbers))
    ]

module _ (P : NumberState → Type 0) (start : P new_number) where
  state_at :
      (o : Option NumberState)
      → ((ns : NumberState) → o ≡ some ns → P ns)
      → P (elim o [ none ↦ new_number | some ns ↦ ns ])
  state_at none h = start
  state_at (some ns) h = h ns refl

  state_after-P :
      (p : FeaturePipeline) (m : String) (ts : ℕ) (update : NumberState → NumberState)
      → ((ns : NumberState)
          → P ns
          → is_late p.lateness ns.high_ts_ms ts ≡ false
          → P (accepted update ts ns))
      → AllNumbers P p
      → P (state_after p m ts update)
  state_after-P p m ts update step h =
      let ns = Dict.get_or m new_number p.numbers in
      let at : P ns = state_at (Dict.lookup m p.numbers) (h m) in
      elim (Bool-cases (is_late p.lateness ns.high_ts_ms ts)) [
        | inl late ↦ rw late at
        | inr on_time ↦ rw on_time (step ns at on_time)
      ]

  pub feed_number-AllNumbers :
      (p : FeaturePipeline) (m : String) (ts : ℕ) (update : NumberState → NumberState)
      → ((ns : NumberState)
          → P ns
          → is_late p.lateness ns.high_ts_ms ts ≡ false
          → P (accepted update ts ns))
      → AllNumbers P p
      → AllNumbers P (feed_number p m ts update).0
  feed_number-AllNumbers p m ts update step h j ns e = elim (Bool-cases (m == j)) [
    | inl same ↦
        let q : some (state_after p m ts update) ≡ some ns =
          sym (rw same at (lookup-feed_number p m ts update j)) ∙ e in
        subst P (some_eq q) (state_after-P p m ts update step h)
    | inr other ↦ h j ns (sym (rw other at (lookup-feed_number p m ts update j)) ∙ e)
  ]

  -- An invariant of the accepted updates is one of the whole run.
  module _ (lag : ℕ)
      (voice_step : (ev : VoiceEvent) (ns : NumberState)
        → P ns
        → is_late lag ns.high_ts_ms ev.event_ts_ms ≡ false
        → P (accepted (voice_update ev) ev.event_ts_ms ns))
      (sms_step : (ev : SmsEvent) (ns : NumberState)
        → P ns
        → is_late lag ns.high_ts_ms ev.event_ts_ms ≡ false
        → P (accepted (sms_update ev) ev.event_ts_ms ns))
      (data_step : (set : List String) (ev : DataEvent) (ns : NumberState)
        → P ns
        → is_late lag ns.high_ts_ms ev.event_ts_ms ≡ false
        → P (accepted (data_update set ev) ev.event_ts_ms ns)) where
    feed-AllNumbers :
        (p : FeaturePipeline) (ev : Event)
        → p.lateness ≡ lag
        → AllNumbers P p
        → AllNumbers P (feed p ev)
    unfolding feed feed_voice feed_sms feed_data feed_momo
    feed-AllNumbers p (voice ev) l h =
        feed_number-AllNumbers p ev.caller ev.event_ts_ms (voice_update ev) (rw l (voice_step ev)) h
    feed-AllNumbers p (sms ev) l h =
        feed_number-AllNumbers p ev.sender ev.event_ts_ms (sms_update ev) (rw l (sms_step ev)) h
    feed-AllNumbers p (flow ev) l h = elim (Option-cases (truthy ev.msisdn)) [
      | inl absent ↦ rw (feed_data_absent p ev absent) h
      | inr (m, e) ↦ rw (feed_data_at p ev m e) (
          feed_number-AllNumbers p m ev.event_ts_ms (data_update p.suspicious ev)
            (rw l (data_step p.suspicious ev)) h)
    ]
    feed-AllNumbers p (momo ev) l h = rw (numbers-feed_momo p ev) h

    pub run-AllNumbers :
        (p : FeaturePipeline) (evs : List Event)
        → p.lateness ≡ lag
        → AllNumbers P p
        → AllNumbers P (run p evs)
    unfolding run
    run-AllNumbers p [] l h = h
    run-AllNumbers p (ev ∷ evs) l h =
        run-AllNumbers (feed p ev) evs (lateness-feed p ev ∙ l) (feed-AllNumbers p ev l h)
