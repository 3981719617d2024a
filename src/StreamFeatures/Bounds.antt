-- ===== src/StreamFeatures/Bounds.antt =====
-- The features of a number against each other: the windows, the fan-out and the calls, the
-- suspicious queries and the queries (services/stream-features/src/stream_features/pipeline.py).
use mathlib.Core.List.{Sublistᴰ}
use fraudnet.Prelude.{
  ℕ, ◌+◌, ◌≤◌, ◌≡◌, refl, ap, ◌∙◌, String, Bool, true, false, Option, none, some, List, [], ◌∷◌,
  ◌++◌, map, length, filter, count, drop_while, arith, ltb, if◌then◌else◌, truthy, count-le-length,
  Option-cases, inl, inr, Sublist-append_right, Sublist-append_both,
}
use fraudnet.Prelude.Dict
use fraudnet.Prelude.Dict.{Dict, lookup-insert, lookup-setdefault}
use fraudnet.Prelude.StringSet
use fraudnet.Schemas.{VoiceEvent, SmsEvent, VoiceKind, DataKind}
use fraudnet.StreamFeatures.State.{
  NumberState, NumberFeatures, new_number, older, w1m, w5m, w1h, prune_number,
  compute_number_features,
}
use fraudnet.StreamFeatures.Feed.{
  number_features, voice_update, sms_update, data_update, is_suspicious, add_call, add_imei,
  add_template, add_query, add_volume, data_step,
}
use fraudnet.StreamFeatures.Run.{Event, run, new_pipeline, AllNumbers, accepted, run-AllNumbers}
use fraudnet.StreamFeatures.Window.{
  drop_while-Sublist, length-le_of_Sublist, map-append_one, map-drop_while,
}

-- The callees stand beside the calls, and the suspicious queries among the queries.
pub record IsCoherent (ns : NumberState) : Type 0 where
  pub paired : map (λ e. e.0) ns.callees_1h ≡ ns.call_times
  pub among : Sublistᴰ ns.suspicious_dns_times ns.dns_query_times

new_number-IsCoherent : IsCoherent new_number
new_number-IsCoherent = record { paired = refl; among = Sublistᴰ.slnil }

prune_number-IsCoherent :
    (ns : NumberState) (now : ℕ) → IsCoherent ns → IsCoherent (prune_number ns now)
unfolding prune_number
prune_number-IsCoherent ns now h = record {
  paired =
      map-drop_while (λ e. e.0) (older w1h now) ns.callees_1h
      ∙ ap (drop_while (older w1h now)) h.paired;
  among = drop_while-Sublist (older w1h now) h.among;
}

add_call-IsCoherent :
    (ts : ℕ) (kind : VoiceKind) (callee : Option String) (ns : NumberState)
    → IsCoherent ns
    → IsCoherent (add_call ts kind callee ns)
unfolding add_call
add_call-IsCoherent ts VoiceKind.call_start (some c) ns h = record {
  paired = map-append_one (λ e. e.0) ns.callees_1h (ts, c) ∙ ap (λ l. l ++ ts ∷ []) h.paired;
  among = h.among;
}
add_call-IsCoherent ts VoiceKind.call_start none ns h = h
add_call-IsCoherent ts _ callee ns h = h

voice_update-IsCoherent :
    (ev : VoiceEvent) (ns : NumberState) → IsCoherent ns → IsCoherent (voice_update ev ns)
unfolding voice_update add_imei
voice_update-IsCoherent ev ns h = after (truthy ev.imei)
  where
    called : IsCoherent (add_call ev.event_ts_ms ev.kind (truthy ev.callee) ns)
    called = add_call-IsCoherent ev.event_ts_ms ev.kind (truthy ev.callee) ns h

    after :
        (imei : Option String)
        → IsCoherent
            (add_imei ev.event_ts_ms imei (add_call ev.event_ts_ms ev.kind (truthy ev.callee) ns))
    after none = called
    after (some imei) = record { paired = called.paired; among = called.among }

sms_update-IsCoherent :
    (ev : SmsEvent) (ns : NumberState) → IsCoherent ns → IsCoherent (sms_update ev ns)
unfolding sms_update add_template
sms_update-IsCoherent ev ns h = after (truthy ev.template_hash)
  where
    after :
        (hash : Option String)
        → IsCoherent (
            add_template ev.event_ts_ms hash
              (record ns { sms_times = ns.sms_times ++ ev.event_ts_ms ∷ [] }))
    after none = record { paired = h.paired; among = h.among }
    after (some t) = record { paired = h.paired; among = h.among }

add_query-IsCoherent :
    (ts : ℕ) (suspect : Bool) (ns : NumberState)
    → IsCoherent ns
    → IsCoherent (add_query ts suspect ns)
unfolding add_query
add_query-IsCoherent ts true ns h = record {
  paired = h.paired;
  among = Sublist-append_both ts h.among;
}
add_query-IsCoherent ts false ns h = record {
  paired = h.paired;
  among = Sublist-append_right ts h.among;
}

add_volume-IsCoherent :
    (ts bytes : ℕ) (ns : NumberState) → IsCoherent ns → IsCoherent (add_volume ts bytes ns)
unfolding add_volume
add_volume-IsCoherent ts bytes ns h = after (ltb 0 bytes)
  where
    after :
        (b : Bool)
        → IsCoherent (
            if b
            then record ns {
              data_volume_1h = ns.data_volume_1h ++ (ts, bytes) ∷ [];
              data_volume_baseline = ns.data_volume_baseline ++ (ts, bytes) ∷ [];
            }
            else ns)
    after true = record { paired = h.paired; among = h.among }
    after false = h

data_step-IsCoherent :
    (set : List String) (ts : ℕ) (kind : DataKind) (domain : Option String) (bytes : ℕ)
    (ns : NumberState)
    → IsCoherent ns
    → IsCoherent (data_step set ts kind domain bytes ns)
unfolding data_step
data_step-IsCoherent set ts DataKind.ipdr_session domain bytes ns h =
    add_volume-IsCoherent ts bytes ns h
data_step-IsCoherent set ts DataKind.dns_query none bytes ns h = h
data_step-IsCoherent set ts DataKind.dns_query (some d) bytes ns h =
    add_query-IsCoherent ts (is_suspicious set d) ns h
data_step-IsCoherent set ts DataKind.dns_response none bytes ns h = h
data_step-IsCoherent set ts DataKind.dns_response (some d) bytes ns h =
    add_query-IsCoherent ts (is_suspicious set d) ns h

-- An accepted event keeps the state coherent if its update does.
accepted-IsCoherent :
    (update : NumberState → NumberState) (ts : ℕ)
    → ((ns : NumberState) → IsCoherent ns → IsCoherent (update ns))
    → (ns : NumberState) → IsCoherent ns
    → IsCoherent (accepted update ts ns)
accepted-IsCoherent update ts keeps ns h =
    prune_number-IsCoherent _ ts (keeps _ (record { paired = h.paired; among = h.among }))

run-IsCoherent :
    (lag : ℕ) (set : List String) (evs : List Event)
    → AllNumbers IsCoherent (run (new_pipeline lag set) evs)
unfolding data_update Dict.lookup
run-IsCoherent lag set evs =
    run-AllNumbers IsCoherent new_number-IsCoherent lag
      (λ ev ns h _.
        accepted-IsCoherent (voice_update ev) ev.event_ts_ms (voice_update-IsCoherent ev) ns h)
      (λ ev ns h _.
        accepted-IsCoherent (sms_update ev) ev.event_ts_ms (sms_update-IsCoherent ev) ns h)
      (λ s ev ns h _.
        accepted-IsCoherent (data_update s ev) ev.event_ts_ms
          (λ n k. data_step-IsCoherent s ev.event_ts_ms ev.kind (truthy ev.domain) _ n k) ns h)
      (new_pipeline lag set) evs refl (λ m ns e. cc)

-- The features of a number, in order.
abbrev pub IsOrdered : NumberFeatures → Type 0
IsOrdered f =
    (f.velocity_1m ≤ f.velocity_5m)
    × (f.velocity_5m ≤ f.velocity_1h)
    × (f.fanout_1h ≤ f.velocity_1h)
    × (f.suspicious_domain_count_1h ≤ f.dns_query_rate_1h)

count_mono :
    (now : ℕ) (ts : List ℕ) → count (λ t. ltb now (t + w1m)) ts ≤ count (λ t. ltb now (t + w5m)) ts
count_mono now [] = omega arith
count_mono now (t ∷ ts) = ground (arith, count_mono now ts)

length-of_list-le : (xs : List String) → length (StringSet.of_list xs) ≤ length xs
unfolding StringSet.of_list StringSet.add
length-of_list-le [] = omega arith
length-of_list-le (x ∷ xs) = ground (arith, length-of_list-le xs)

length-map-filter :
    (p : ℕ × String → Bool) (es : List (ℕ × String))
    → length (map (λ e. e.1) (filter p es)) ≤ length (map (λ e. e.0) es)
length-map-filter p [] = omega arith
length-map-filter p (e ∷ es) = ground (arith, length-map-filter p es)

compute-IsOrdered :
    (m : String) (ns : NumberState) (now : ℕ)
    → IsCoherent ns
    → IsOrdered (compute_number_features m ns now)
unfolding compute_number_features
compute-IsOrdered m ns now h = (
  count_mono now ns.call_times,
  count-le-length _ ns.call_times,
  omega (
    arith,
    length-of_list-le (map (λ e. e.1) (filter (λ e. ltb now (e.0 + w1h)) ns.callees_1h)),
    length-map-filter (λ e. ltb now (e.0 + w1h)) ns.callees_1h,
    ap length h.paired,
  ),
  length-le_of_Sublist h.among,
)

-- Whatever the events, and however late or out of order they come: for every number the calls of
-- the last minute are at most those of five minutes, these at most those of the hour, the fan-out is
-- at most the calls of the hour, and the suspicious DNS queries are at most the DNS queries.
pub run-IsOrdered :
    (lag : ℕ) (set : List String) (evs : List Event) (m : String)
    → IsOrdered (number_features (run (new_pipeline lag set) evs) m)
unfolding number_features
run-IsOrdered lag set evs m =
    let p = run (new_pipeline lag set) evs in
    elim (Option-cases (Dict.lookup m p.numbers)) [
      | inl absent ↦ rw (absent, number_features) (omega arith)
      | inr (ns, found) ↦
          rw (found, number_features)
            (compute-IsOrdered m ns ns.high_ts_ms (run-IsCoherent lag set evs m ns found))
    ]
