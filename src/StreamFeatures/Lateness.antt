-- ===== src/StreamFeatures/Lateness.antt =====
-- Events out of order: how far behind the window an entry may stay, and what a late event does.
use fraudnet.Prelude.{
  ℕ, ◌+◌, ◌≤◌, ◌≡◌, refl, sym, ap, subst, ◌∙◌, ◌⊎◌, ◌≢◌, String, true, false, Option, none, some,
  List, [], ◌∷◌, ◌++◌, All, All-append, All-drop_while, drop_while, arith, truthy, max, eq_iff,
  ◌==◌, Bool-cases, inl, inr,
}
use mathlib.Core.List.{append-nil}
use fraudnet.Prelude.Dict
use fraudnet.Prelude.Dict.{lookup-setdefault}
use fraudnet.Schemas.{VoiceEvent, VoiceKind}
use fraudnet.StreamFeatures.State.{
  NumberState, FeaturePipeline, older, w1h, prune_number, is_late, compute_number_features,
}
use fraudnet.StreamFeatures.Feed.{
  number_features, feed_number, voice_update, sms_update, data_update, feed_voice,
}
use fraudnet.StreamFeatures.Run.{
  Event, run, new_pipeline, AllNumbers, accepted, run-AllNumbers, feed, lateness-feed,
}
use fraudnet.StreamFeatures.Window.{
  Staggered, Staggered-drop_while, Staggered-append, All-fresh-drop_while,
}
use fraudnet.StreamFeatures.History.{
  call_of, call_times-voice_update, call_times-sms_update, call_times-data_update, state_of, or_new,
  state_of-accepted, state_of-late, state_of-feed_number_ne, features-or_new,
}

-- The calls lie at or before the watermark, and none is more than the lag behind an earlier entry.
record IsTimely (lag : ℕ) (ns : NumberState) : Type 0 where
  below : All (λ t. t ≤ ns.high_ts_ms) ns.call_times
  staggered : Staggered lag ns.call_times

All-le_add :
    (h ts lag : ℕ) (xs : List ℕ) → h ≤ ts + lag → All (λ t. t ≤ h) xs → All (λ t. t ≤ ts + lag) xs
All-le_add h ts lag [] k a = tt
All-le_add h ts lag (x ∷ xs) k a = (omega arith, All-le_add h ts lag xs k a.1)

All-le_max : (h ts : ℕ) (xs : List ℕ) → All (λ t. t ≤ h) xs → All (λ t. t ≤ max h ts) xs
All-le_max h ts [] a = tt
All-le_max h ts (x ∷ xs) a = (omega arith, All-le_max h ts xs a.1)

not_late : (lag high ts : ℕ) → is_late lag high ts ≡ false → high ≤ ts + lag
unfolding is_late
not_late lag high ts h = ground arith

-- The window before it is pruned, with at most one call more.
appended-IsTimely :
    (lag ts : ℕ) (c : List ℕ) (ns : NumberState)
    → (c ≡ []) ⊎ (c ≡ ts ∷ [])
    → IsTimely lag ns
    → is_late lag ns.high_ts_ms ts ≡ false
    → Staggered lag (ns.call_times ++ c) × All (λ t. t ≤ max ns.high_ts_ms ts) (ns.call_times ++ c)
appended-IsTimely lag ts c ns (inl e) h l =
    rw (e, append-nil) (h.staggered, All-le_max _ ts _ h.below)
appended-IsTimely lag ts c ns (inr e) h l = rw e (
  Staggered-append lag ns.call_times ts h.staggered
      (All-le_add ns.high_ts_ms ts lag _ (not_late lag _ ts l) h.below),
  All-append _ ns.call_times (ts ∷ []) (All-le_max _ ts _ h.below) (omega arith, tt),
)

-- An update that adds at most one call, at the event's time, and keeps the watermark.
abbrev Adds : (NumberState → NumberState) → List ℕ → Type 0
Adds update c =
    (ns : NumberState)
    → ((update ns).call_times ≡ ns.call_times ++ c) × ((update ns).high_ts_ms ≡ ns.high_ts_ms)

module _ (lag ts : ℕ) (c : List ℕ) (update : NumberState → NumberState) (adds : Adds update c)
    (one : (c ≡ []) ⊎ (c ≡ ts ∷ [])) where
  accepted-call_times :
      (ns : NumberState)
      → (accepted update ts ns).call_times ≡ drop_while (older w1h ts) (ns.call_times ++ c)
  unfolding prune_number
  accepted-call_times ns = ap (drop_while (older w1h ts)) (adds _).0

  accepted-high : (ns : NumberState) → (accepted update ts ns).high_ts_ms ≡ max ns.high_ts_ms ts
  unfolding prune_number
  accepted-high ns = (adds _).1

  accepted-IsTimely :
      (ns : NumberState)
      → IsTimely lag ns
      → is_late lag ns.high_ts_ms ts ≡ false
      → IsTimely lag (accepted update ts ns)
  accepted-IsTimely ns h l =
      let both = appended-IsTimely lag ts c ns one h l in
      record {
        below = rw (accepted-high, accepted-call_times) (All-drop_while _ _ _ both.1);
        staggered = rw accepted-call_times (Staggered-drop_while lag _ _ both.0);
      }

  accepted_fresh :
      (ns : NumberState)
      → IsTimely lag ns
      → is_late lag ns.high_ts_ms ts ≡ false
      → All (λ t. ts ≤ t + w1h + lag) (accepted update ts ns).call_times
  accepted_fresh ns h l =
      rw accepted-call_times
        (All-fresh-drop_while lag w1h ts _ (appended-IsTimely lag ts c ns one h l).0)

call_of-one :
    (ts : ℕ) (kind : VoiceKind) (o : Option String)
    → (call_of ts kind o ≡ []) ⊎ (call_of ts kind o ≡ ts ∷ [])
unfolding call_of
call_of-one ts VoiceKind.call_start (some c) = inr refl
call_of-one ts VoiceKind.call_start none = inl refl
call_of-one ts _ o = inl refl

voice_calls : VoiceEvent → List ℕ
voice_calls ev = call_of ev.event_ts_ms ev.kind (truthy ev.callee)

run-IsTimely :
    (lag : ℕ) (set : List String) (evs : List Event)
    → AllNumbers (IsTimely lag) (run (new_pipeline lag set) evs)
unfolding Dict.lookup
run-IsTimely lag set evs =
    run-AllNumbers (IsTimely lag) (record { below = tt; staggered = tt }) lag
      (λ ev.
        accepted-IsTimely lag ev.event_ts_ms _ (voice_update ev) (call_times-voice_update ev)
          (call_of-one ev.event_ts_ms ev.kind (truthy ev.callee)))
      (λ ev.
        accepted-IsTimely lag ev.event_ts_ms [] (sms_update ev) (call_times-sms_update ev)
          (inl refl))
      (λ s ev.
        accepted-IsTimely lag ev.event_ts_ms [] (data_update s ev) (call_times-data_update s ev)
          (inl refl))
      (new_pipeline lag set) evs refl (λ m ns e. cc)

state_of-IsTimely :
    (lag : ℕ) (p : FeaturePipeline) (m : String)
    → AllNumbers (IsTimely lag) p
    → IsTimely lag (state_of p m)
state_of-IsTimely lag p m h = of_option (Dict.lookup m p.numbers) (h m)
  where
    of_option :
        (o : Option NumberState)
        → ((ns : NumberState) → o ≡ some ns → IsTimely lag ns)
        → IsTimely lag (or_new o)
    of_option none k = record { below = tt; staggered = tt }
    of_option (some ns) k = k ns refl

lateness-run : (p : FeaturePipeline) (evs : List Event) → (run p evs).lateness ≡ p.lateness
unfolding run
lateness-run p [] = refl
lateness-run p (ev ∷ evs) = lateness-run (feed p ev) evs ∙ lateness-feed p ev

-- After any run, when a voice event is not late, the calls that its caller's window keeps (those
-- that velocity_1h counts) are at most an hour and the allowed lateness older than the event.
pub feed_voice_fresh :
    (lag : ℕ) (set : List String) (evs : List Event) (ev : VoiceEvent)
    → let p = run (new_pipeline lag set) evs in
      is_late lag (state_of p ev.caller).high_ts_ms ev.event_ts_ms ≡ false
      → All
          (λ t. ev.event_ts_ms ≤ t + w1h + lag)
          (state_of (feed_voice p ev).0 ev.caller).call_times
unfolding feed_voice
feed_voice_fresh lag set evs ev on_time =
    let p = run (new_pipeline lag set) evs in
    let h = state_of-IsTimely lag p ev.caller (run-IsTimely lag set evs) in
    subst (λ ns. All (λ t. ev.event_ts_ms ≤ t + w1h + lag) ns.call_times)
      (sym (
        state_of-accepted p ev.caller ev.event_ts_ms (voice_update ev)
          (rw (lateness-run (new_pipeline lag set) evs) on_time)))
      (accepted_fresh lag ev.event_ts_ms _ (voice_update ev) (call_times-voice_update ev)
        (call_of-one ev.event_ts_ms ev.kind (truthy ev.callee)) (state_of p ev.caller) h on_time)

same_features :
    (p q : FeaturePipeline) (m : String)
    → state_of q m ≡ state_of p m
    → number_features q m ≡ number_features p m
same_features p q m e =
    features-or_new q m
    ∙ ap (λ ns. compute_number_features m ns ns.high_ts_ms) e
    ∙ sym (features-or_new p m)

-- A voice event of another number, and one that is late, leave the features of a number as they are.
pub feed_voice_frame :
    (p : FeaturePipeline) (ev : VoiceEvent) (m : String)
    → (ev.caller ≢ m) ⊎ (is_late p.lateness (state_of p ev.caller).high_ts_ms ev.event_ts_ms ≡ true)
    → number_features (feed_voice p ev).0 m ≡ number_features p m
unfolding feed_voice
feed_voice_frame p ev m (inl other) =
    same_features p (feed_number p ev.caller ev.event_ts_ms (voice_update ev)).0 m (
      state_of-feed_number_ne p m ev.caller ev.event_ts_ms (voice_update ev)
        (ground (arith, eq_iff ev.caller m)))
feed_voice_frame p ev m (inr late) =
    same_features p (feed_number p ev.caller ev.event_ts_ms (voice_update ev)).0 m
      (elim (Bool-cases (ev.caller == m)) [
        | inl same ↦
            let e : ev.caller ≡ m = (eq_iff ev.caller m).0 same in
            subst
              (λ k.
                state_of (feed_number p ev.caller ev.event_ts_ms (voice_update ev)).0 k
                ≡ state_of p k)
              e (state_of-late p ev.caller ev.event_ts_ms (voice_update ev) late)
        | inr other ↦ state_of-feed_number_ne p m ev.caller ev.event_ts_ms (voice_update ev) other
      ])
