-- ===== src/Tests/Features.antt =====
-- Calls and texts for services/stream-features/src/stream_features/pipeline.py.
use fraudnet.Prelude.{
  ℕ, ◌≤◌, ◌≡◌, ◌≢◌, refl, String, none, some, List, [], ◌∷◌, arith, inl, All, count, leb, ◌+◌, ◌<◌,
  eq_iff,
}
use fraudnet.Prelude.Dict
use fraudnet.Domain.Labels.{label_match, suffix_match, label_match-eq-suffix_match}
use fraudnet.Schemas.{VoiceEvent, VoiceKind}
use fraudnet.StreamFeatures.State.{
  NumberState, new_number, is_late, compute_number_features, p95, w1h, prune_number,
}
use fraudnet.StreamFeatures.Feed.{number_features, feed_voice, feed_number, voice_update}
use fraudnet.StreamFeatures.Run.{Event, feed, run, new_pipeline}
use fraudnet.StreamFeatures.History.{touch, state_of, calls, last_seen}
use fraudnet.StreamFeatures.Bounds.{IsOrdered, run-IsOrdered}
use fraudnet.StreamFeatures.Exact.{CountsCalls, run-CountsCalls}
use fraudnet.StreamFeatures.Lateness.{feed_voice_fresh, feed_voice_frame}
use fraudnet.StreamFeatures.Ranks.{p95_index, p95_rank}
use fraudnet.StreamFeatures.Templates.{occurrences, sms_template_top-largest}

abbrev call_at : ℕ → String → VoiceEvent
call_at ts callee = record {
  event_id = "v";
  event_ts_ms = ts;
  ingest_ts_ms = ts;
  tenant_id = "mtn-ghana";
  kind = VoiceKind.call_start;
  caller = "+233200000001";
  callee = some callee;
  imei = some "356938035643809";
  duration_s = none;
}

abbrev two_calls : List Event
two_calls =
    Event.voice (call_at 1000 "+233200000002") ∷ Event.voice (call_at 70000 "+233200000003") ∷ []

run-IsOrdered_example :
    IsOrdered (number_features (run (new_pipeline 60000 []) two_calls) "+233200000001")
run-IsOrdered_example = run-IsOrdered 60000 [] two_calls "+233200000001"

run-CountsCalls_example :
    CountsCalls
      (last_seen "+233200000001" 0 two_calls)
      (calls "+233200000001" two_calls)
      (number_features (run (new_pipeline 60000 []) two_calls) "+233200000001")
unfolding touch
run-CountsCalls_example =
    run-CountsCalls 60000 [] two_calls "+233200000001" (omega arith, (omega arith, tt))

feed_voice_fresh_example :
    All
      (λ t. 71000 ≤ t + w1h + 60000)
      (state_of
        (feed_voice (run (new_pipeline 60000 []) two_calls) (call_at 71000 "+233200000004")).0
        "+233200000001").call_times
unfolding run is_late Dict.lookup feed feed_voice feed_number Dict.insert Dict.setdefault
    prune_number voice_update
feed_voice_fresh_example = feed_voice_fresh 60000 [] two_calls (call_at 71000 "+233200000004") refl

other_number : ◌≢◌ {A = String} "+233200000001" "+233200000009"
other_number e = ground (arith, eq_iff "+233200000001" "+233200000009")

feed_voice_frame_example :
    number_features
      (feed_voice (new_pipeline 60000 []) (call_at 1000 "+233200000002")).0
      "+233200000009"
    ≡ number_features (new_pipeline 60000 []) "+233200000009"
feed_voice_frame_example =
    feed_voice_frame (new_pipeline 60000 []) (call_at 1000 "+233200000002") "+233200000009"
      (inl other_number)

abbrev amounts : List ℕ
amounts = 300 ∷ 100 ∷ 200 ∷ []

p95_rank_example :
    (p95_index 3 < count (λ a. leb a (p95 amounts)) amounts)
    × (3 ≤ count (λ a. leb (p95 amounts) a) amounts + p95_index 3)
p95_rank_example = p95_rank amounts (omega arith)

abbrev texted : NumberState
texted = record new_number { sms_template_hashes = (1, "aa") ∷ (2, "bb") ∷ (3, "bb") ∷ [] }

sms_template_top-largest_example :
    occurrences "aa" texted.sms_template_hashes ≤ occurrences "bb" texted.sms_template_hashes
unfolding compute_number_features Dict.insert Dict.lookup
sms_template_top-largest_example = sms_template_top-largest "m" texted 3 "bb" "aa" refl

label_match-eq-suffix_match_example :
    label_match ("mtn.com.gh" ∷ []) "pay.mtn.com.gh"
    ≡ suffix_match ("mtn.com.gh" ∷ []) "pay.mtn.com.gh"
label_match-eq-suffix_match_example =
    label_match-eq-suffix_match ("mtn.com.gh" ∷ []) "pay.mtn.com.gh"
