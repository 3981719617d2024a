-- ===== src/Tests/Motifs.antt =====
-- A small snapshot of calls, texts, payments and devices, for
-- services/brain-graph/src/brain_graph/motifs.py.
use mathlib.Core.List.{Memᴰ}
use fraudnet.Prelude.{ℕ, ◌≡◌, refl, String, Option, some, List, [], ◌∷◌, inl, inr, arith, map}
use fraudnet.Prelude.Dict
use fraudnet.Prelude.StringSet
use fraudnet.Schemas.{Primitive, int}
use fraudnet.BrainGraph.Subgraph.{
  GraphEdge, Subgraph, MotifMatch, by_endpoints, outgoing_dst_ids, outgoing_edges,
}
use fraudnet.BrainGraph.Motifs.{
  detect_voice_sms_momo_24h, pair_matches, call_matches, fingerprint_match,
}
use fraudnet.BrainGraph.Fingerprints.{IsFingerprint, detect_voice_sms_momo_24h-IsFingerprint}
use fraudnet.BrainGraph.Chains.{
  detect_mule_chains, mule_chains_from, walk_chains, go, hops, skips, keep_chains, chain_match,
  sent_by_src,
}
use fraudnet.BrainGraph.Walks.{Walk}
use fraudnet.BrainGraph.Detected.{
  IsMule, detect_mule_chains_total, detect_mule_chains-IsMule, detect_mule_chains_complete,
}
use fraudnet.BrainGraph.Devices.{detect_sim_carousels, carousel, users_by_device}
use fraudnet.BrainGraph.Shared.{IsCarousel, detect_sim_carousels-IsCarousel}

abbrev int_of : Option Primitive → ℕ
int_of (some (int n)) = n
int_of _ = 0

abbrev edge : String → String → String → String → String → ℕ → GraphEdge
edge kind src_kind src dst_kind dst ts = record {
  kind = kind;
  src_kind = src_kind;
  src_id = src;
  dst_kind = dst_kind;
  dst_id = dst;
  ts_ms = ts;
  properties = ("amount", int 50) ∷ [];
}

abbrev paid : String → String → ℕ → GraphEdge
paid src dst ts = edge "SENT" "Wallet" src "Wallet" dst ts

abbrev snapshot : Subgraph
snapshot = record {
  nodes = [];
  edges =
      edge "CALLED" "Number" "A" "Number" "B" 10
      ∷ edge "SMSED" "Number" "A" "Number" "B" 20
      ∷ edge "OWNS" "Number" "B" "Wallet" "w" 0
      ∷ paid "w" "x" 30
      ∷ paid "x" "y" 40
      ∷ edge "USED" "Number" "A" "Device" "d" 1
      ∷ edge "USED" "Number" "B" "Device" "d" 2
      ∷ [];
}

detect_voice_sms_momo_24h-IsFingerprint_example : IsFingerprint snapshot 100 1000 (record {
  motif = "voice_sms_momo_24h";
  members = ("Number", "A") ∷ ("Number", "B") ∷ ("Wallet", "w") ∷ ("Wallet", "x") ∷ [];
  confidence = 90;
  evidence =
      ("call_ts_ms", int 10)
      ∷ ("sms_ts_ms", int 20)
      ∷ ("send_ts_ms", int 30)
      ∷ ("amount_minor", int 50)
      ∷ ("lag_call_to_sms_s", int 0)
      ∷ ("lag_sms_to_send_s", int 0)
      ∷ [];
})
unfolding detect_voice_sms_momo_24h pair_matches call_matches fingerprint_match by_endpoints
    outgoing_dst_ids outgoing_edges Dict.lookup
detect_voice_sms_momo_24h-IsFingerprint_example =
    detect_voice_sms_momo_24h-IsFingerprint snapshot int_of 100 1000 (Memᴰ.head refl)

abbrev along : List String → MotifMatch
along c = chain_match int_of (sent_by_src snapshot) 3 c

detect_mule_chains_total_example :
    (ms : List MotifMatch) × (detect_mule_chains int_of snapshot 3 6 1000 ≡ some ms)
detect_mule_chains_total_example = detect_mule_chains_total int_of snapshot 3 6 1000

detect_mule_chains-IsMule_example : IsMule snapshot 3 6 1000 (along ("w" ∷ "x" ∷ "y" ∷ []))
unfolding detect_mule_chains mule_chains_from walk_chains go hops skips keep_chains StringSet.member
    Dict.lookup
detect_mule_chains-IsMule_example =
    detect_mule_chains-IsMule int_of snapshot 3 6 1000 (along ("w" ∷ "x" ∷ "y" ∷ []) ∷ [])
      (omega arith) refl (Memᴰ.head refl)

detect_mule_chains_complete_example :
    (m : MotifMatch) × Memᴰ m (along ("w" ∷ "x" ∷ "y" ∷ []) ∷ [])
    × (m.members ≡ map (λ w. ("Wallet", w)) ("w" ∷ "x" ∷ "y" ∷ []))
unfolding detect_mule_chains mule_chains_from walk_chains go hops skips keep_chains StringSet.member
    Dict.lookup
detect_mule_chains_complete_example =
    detect_mule_chains_complete int_of snapshot 3 6 1000 "w" ("w" ∷ "x" ∷ "y" ∷ [])
      (along ("w" ∷ "x" ∷ "y" ∷ []) ∷ [])
      (Walk.hop
        (Walk.hop Walk.here (paid "w" "x" 30)
          ((Memᴰ.tail (Memᴰ.tail (Memᴰ.tail (Memᴰ.head refl))), refl), refl) refl (inl refl))
        (paid "x" "y" 40)
        ((Memᴰ.tail (Memᴰ.tail (Memᴰ.tail (Memᴰ.tail (Memᴰ.head refl)))), refl), refl) refl
        (inr (omega arith, omega arith)))
      (omega arith) (omega arith) (omega arith) refl

detect_sim_carousels-IsCarousel_example : IsCarousel snapshot 2 (record {
  motif = "sim_carousel";
  members = ("Device", "d") ∷ ("Number", "A") ∷ ("Number", "B") ∷ [];
  confidence = 55;
  evidence = ("numbers_per_device", int 2) ∷ ("device_id", Primitive.str "d") ∷ [];
})
unfolding detect_sim_carousels carousel users_by_device StringSet.member StringSet.add Dict.lookup
    Dict.insert
detect_sim_carousels-IsCarousel_example =
    detect_sim_carousels-IsCarousel snapshot 2 (Memᴰ.head refl)
