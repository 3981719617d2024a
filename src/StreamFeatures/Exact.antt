-- ===== src/StreamFeatures/Exact.antt =====
-- What the call window holds after a run in which the events of a number come in time order,
-- against the history of all its calls.
use fraudnet.Prelude.{
  ◌⊎◌, count, length-filter, ℕ, ◌+◌, ◌≤◌, ◌≡◌, refl, sym, ap, subst, ◌∙◌, String, Option, none,
  some, List, [], ◌∷◌, ◌++◌, All, All-append, length, filter, drop_while, arith, ltb, leb, truthy,
  ◌==◌, Bool-cases, inl, inr,
}
use mathlib.Core.List.{append-nil, append_assoc}
use fraudnet.Prelude.Dict
use fraudnet.Schemas.{VoiceKind}
use fraudnet.StreamFeatures.State.{
  NumberState, FeaturePipeline, NumberFeatures, older, w1m, w5m, w1h, compute_number_features,
}
use fraudnet.StreamFeatures.Feed.{number_features}
use fraudnet.StreamFeatures.Run.{Event, run, new_pipeline, feed}
use fraudnet.StreamFeatures.Window.{Staggered, Staggered-append, drop_while-eq-filter}
use fraudnet.StreamFeatures.History.{
  call_of, touch_at, touch_data, touch, calls, last_seen, InOrder, state_of, Advances, Steps,
  feed-Steps, features-or_new,
}

-- What has been pruned once need not be there when it is pruned again later.
drop_while_twice :
    (w early late : ℕ) (xs c : List ℕ)
    → early ≤ late
    → drop_while (older w late) (drop_while (older w early) xs ++ c)
      ≡ drop_while (older w late) (xs ++ c)
drop_while_twice w early late [] c h = refl
drop_while_twice w early late (x ∷ xs) c h = ground (arith, drop_while_twice w early late xs c h)

-- The state of a number against the history of its calls.
record Tracks (ns : NumberState) (high : ℕ) (history : List ℕ) : Type 0 where
  at : ns.high_ts_ms ≡ high
  holds : ns.call_times ≡ drop_while (older w1h high) history
  sorted : Staggered 0 history
  below : All (λ t. t ≤ high) history

-- The calls that one event records are at its time.
abbrev AtMostOne : ℕ → List ℕ → Type 0
AtMostOne ts c = (c ≡ []) ⊎ (c ≡ ts ∷ [])

abbrev TouchesOnce : Option (ℕ × List ℕ) → Type 0
TouchesOnce none = Unit
TouchesOnce (some (ts, c)) = AtMostOne ts c

touch_at-TouchesOnce :
    (m key : String) (ts : ℕ) (c : List ℕ) → AtMostOne ts c → TouchesOnce (touch_at m key ts c)
unfolding touch_at
touch_at-TouchesOnce m key ts c h = elim (Bool-cases (key == m)) [
  | inl same ↦ rw same h
  | inr other ↦ rw other tt
]

call_of-AtMostOne :
    (ts : ℕ) (kind : VoiceKind) (o : Option String) → AtMostOne ts (call_of ts kind o)
unfolding call_of
call_of-AtMostOne ts VoiceKind.call_start (some c) = inr refl
call_of-AtMostOne ts VoiceKind.call_start none = inl refl
call_of-AtMostOne ts _ o = inl refl

touch_data-TouchesOnce : (m : String) (ts : ℕ) (o : Option String) → TouchesOnce (touch_data m ts o)
unfolding touch_data
touch_data-TouchesOnce m ts none = tt
touch_data-TouchesOnce m ts (some key) = touch_at-TouchesOnce m key ts [] (inl refl)

touch-TouchesOnce : (m : String) (ev : Event) → TouchesOnce (touch m ev)
unfolding touch
touch-TouchesOnce m (Event.voice ev) =
    touch_at-TouchesOnce m ev.caller ev.event_ts_ms _
      (call_of-AtMostOne ev.event_ts_ms ev.kind (truthy ev.callee))
touch-TouchesOnce m (Event.sms ev) = touch_at-TouchesOnce m ev.sender ev.event_ts_ms [] (inl refl)
touch-TouchesOnce m (Event.flow ev) = touch_data-TouchesOnce m ev.event_ts_ms (truthy ev.msisdn)
touch-TouchesOnce m (Event.momo ev) = tt

All-le_trans : (a b : ℕ) (xs : List ℕ) → a ≤ b → All (λ t. t ≤ a) xs → All (λ t. t ≤ b) xs
All-le_trans a b [] h k = tt
All-le_trans a b (x ∷ xs) h k = (omega arith, All-le_trans a b xs h k.1)

All-le_zero : (a : ℕ) (xs : List ℕ) → All (λ t. t ≤ a) xs → All (λ t. t ≤ a + 0) xs
All-le_zero a [] k = tt
All-le_zero a (x ∷ xs) k = (omega arith, All-le_zero a xs k.1)

advance-Tracks :
    (ns ns' : NumberState) (high ts : ℕ) (history c : List ℕ)
    → AtMostOne ts c
    → high ≤ ts
    → Tracks ns high history
    → Advances ts c ns ns'
    → Tracks ns' ts (history ++ c)
advance-Tracks ns ns' high ts history c (inl e) le t a = record {
  at = a.0;
  holds =
      a.1
      ∙ ap (λ l. drop_while (older w1h ts) (l ++ c)) t.holds
      ∙ drop_while_twice w1h high ts history c le;
  sorted = rw (e, append-nil) t.sorted;
  below = rw (e, append-nil) (All-le_trans high ts history le t.below);
}
advance-Tracks ns ns' high ts history c (inr e) le t a = record {
  at = a.0;
  holds =
      a.1
      ∙ ap (λ l. drop_while (older w1h ts) (l ++ c)) t.holds
      ∙ drop_while_twice w1h high ts history c le;
  sorted = rw e (
      Staggered-append 0 history ts t.sorted
        (All-le_zero ts history (All-le_trans high ts history le t.below)));
  below =
      rw e (
        All-append _ history (ts ∷ []) (All-le_trans high ts history le t.below) (omega arith, tt));
}

-- One event of a run, whatever it touches.
track_step :
    (m : String) (evs : List Event) (ns ns' final : NumberState) (high : ℕ) (history : List ℕ)
    (o : Option (ℕ × List ℕ))
    → ((h : ℕ) (hist : List ℕ)
        → Tracks ns' h hist
        → InOrder m h evs
        → Tracks final (last_seen m h evs) (hist ++ calls m evs))
    → Tracks ns high history
    → Steps o ns ns'
    → TouchesOnce o
    → elim o as (λ x. Type 0) [
      | none ↦ InOrder m high evs
      | some (ts, c) ↦ (high ≤ ts) × InOrder m ts evs
    ]
    → Tracks final
        (elim o as (λ x. ℕ) [ none ↦ last_seen m high evs | some (ts, c) ↦ last_seen m ts evs ])
        (history
          ++ (elim o as (λ x. List ℕ) [ none ↦ calls m evs | some (ts, c) ↦ c ++ calls m evs ]))
track_step m evs ns ns' final high history none rec t steps once ord =
    rec high history (subst (λ n. Tracks n high history) (sym steps) t) ord
track_step m evs ns ns' final high history (some (ts, c)) rec t steps once ord =
    subst (Tracks final (last_seen m ts evs)) (append_assoc history c (calls m evs)) (
      rec ts (history ++ c)
        (advance-Tracks ns ns' high ts history c once ord.0 t (steps (rw t.at ord.0))) ord.1)

run-Tracks :
    (p : FeaturePipeline) (m : String) (evs : List Event) (high : ℕ) (history : List ℕ)
    → Tracks (state_of p m) high history
    → InOrder m high evs
    → Tracks (state_of (run p evs) m) (last_seen m high evs) (history ++ calls m evs)
unfolding run calls last_seen
run-Tracks p m [] high history t ord = rw append-nil t
run-Tracks p m (ev ∷ evs) high history t ord =
    track_step m evs (state_of p m) (state_of (feed p ev) m) (state_of (run (feed p ev) evs) m) high
      history (touch m ev) (run-Tracks (feed p ev) m evs) t (feed-Steps p m ev)
      (touch-TouchesOnce m ev) ord

-- Among all calls the ones that a pruned window shorter than an hour counts.
count-recent :
    (now w : ℕ) (ts : List ℕ)
    → w ≤ w1h
    → count (λ t. ltb now (t + w)) (filter (λ t. leb now (t + w1h)) ts)
      ≡ count (λ t. ltb now (t + w)) ts
count-recent now w [] h = refl
count-recent now w (t ∷ ts) h = ground (arith, count-recent now w ts h)

-- The three velocities, over a list of call times.
abbrev pub CountsCalls : ℕ → List ℕ → NumberFeatures → Type 0
CountsCalls now ts f =
    (f.velocity_1h ≡ count (λ t. leb now (t + w1h)) ts)
    × (f.velocity_5m ≡ count (λ t. ltb now (t + w5m)) ts)
    × (f.velocity_1m ≡ count (λ t. ltb now (t + w1m)) ts)

Tracks-CountsCalls :
    (m : String) (ns : NumberState) (high : ℕ) (history : List ℕ)
    → Tracks ns high history
    → CountsCalls high history (compute_number_features m ns ns.high_ts_ms)
unfolding compute_number_features
Tracks-CountsCalls m ns high history t =
    let kept = t.holds ∙ drop_while-eq-filter w1h high history t.sorted in
    (
      ap length kept ∙ length-filter _ history,
      rw (t.at, kept) (count-recent high w5m history (omega arith)),
      rw (t.at, kept) (count-recent high w1m history (omega arith)),
    )

-- If the events of a number come in time order, its velocities count, over all calls that were ever
-- fed, exactly those in the hour, the five minutes and the minute before its last event.
pub run-CountsCalls :
    (lag : ℕ) (set : List String) (evs : List Event) (m : String)
    → InOrder m 0 evs
    → CountsCalls
        (last_seen m 0 evs)
        (calls m evs)
        (number_features (run (new_pipeline lag set) evs) m)
run-CountsCalls lag set evs m ord = rw features-or_new (
    Tracks-CountsCalls m _ _ _ (
      run-Tracks (new_pipeline lag set) m evs 0 []
        (unfold Dict.lookup in record { at = refl; holds = refl; sorted = tt; below = tt }) ord))
