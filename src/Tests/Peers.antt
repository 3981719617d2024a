-- ===== src/Tests/Peers.antt =====
-- A number that the local operator and a peer both saw, for
-- packages/federation/src/fraudnet/federation/merge.py.
use fraudnet.Prelude.{ℕ, some, [], ◌∷◌}
use fraudnet.Prelude.Dict
use fraudnet.Federation.Merge.{RemoteNode, RemoteSubgraph, record_all, sightings}
use fraudnet.Federation.Sightings.{Describes, record_all-sightings}

abbrev seen_with : ℕ → RemoteNode
seen_with score = record {
  kind = "Number";
  identifier_hash = "a1";
  risk_score = some score;
  properties = [];
}

abbrev peer : RemoteSubgraph
peer = record { opco = "mtn-nigeria"; nodes = seen_with 9 ∷ []; edges = [] }

record_all-sightings_example :
    Describes
      (seen_with 4 ∷ [])
      (peer ∷ [])
      "a1"
      (Dict.lookup "a1" (record_all [] (sightings (seen_with 4 ∷ []) (peer ∷ []))))
record_all-sightings_example = record_all-sightings "a1" (seen_with 4 ∷ []) (peer ∷ [])
