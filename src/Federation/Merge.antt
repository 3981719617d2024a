-- ===== src/Federation/Merge.antt =====
-- packages/federation/src/fraudnet/federation/merge.py, with the nodes and edges of protocol.py. A
-- risk score is a natural number of units that every float of its range is a multiple of.
use Prim.Native.String.{compare}
use Prim.Native.Nat.{Ordering}
use fraudnet.Prelude.{
  ℕ, String, Bool, false, not, Option, none, some, List, [], ◌∷◌, ◌++◌, map, filter, ◌==◌, max,
}
use fraudnet.Prelude.Dict
use fraudnet.Prelude.Dict.{Dict}
use fraudnet.Prelude.StringSet
use fraudnet.Schemas.{Primitive}

pub record RemoteNode : Type 0 where
  pub kind : String
  pub identifier_hash : String
  pub risk_score : Option ℕ
  pub properties : Dict Primitive

pub record RemoteEdge : Type 0 where
  pub kind : String
  pub src_hash : String
  pub dst_hash : String
  pub ts_ms : ℕ
  pub properties : Dict Primitive

pub record RemoteSubgraph : Type 0 where
  pub opco : String
  pub nodes : List RemoteNode
  pub edges : List RemoteEdge

pub record MergedNode : Type 0 where
  pub identifier_hash : String
  pub kind : String
  pub opco : String
  pub risk_score : Option ℕ
  pub properties : Dict Primitive
  pub contributors : List String

pub record MergedEdge : Type 0 where
  pub src_hash : String
  pub dst_hash : String
  pub kind : String
  pub ts_ms : ℕ
  pub opco : String
  pub properties : Dict Primitive

pub record MergedView : Type 0 where
  pub nodes : List MergedNode
  pub edges : List MergedEdge

-- `_max_optional`
abbrev pub max_optional : Option ℕ → Option ℕ → Option ℕ
max_optional none b = b
max_optional (some a) none = some a
max_optional (some a) (some b) = some (max a b)

-- `{**a, **b}`
abbrev pub merge_dicts : Dict Primitive → Dict Primitive → Dict Primitive
merge_dicts a [] = a
merge_dicts a ((k, v) ∷ b) = merge_dicts (Dict.insert k v a) b

-- `sorted` of texts
abbrev pub place : String → List String → List String
place a [] = a ∷ []
place a (b ∷ bs) = elim (compare b a) [ Ordering.lt ↦ b ∷ place a bs | _ ↦ a ∷ b ∷ bs ]

abbrev pub sorted : List String → List String
sorted [] = []
sorted (a ∷ as') = place a (sorted as')

-- `_record_node` on the entry of the node's hash
unfoldable pub record_entry : RemoteNode → String → Option MergedNode → MergedNode
record_entry node opco none = record {
  identifier_hash = node.identifier_hash;
  kind = node.kind;
  opco = opco;
  risk_score = node.risk_score;
  properties = node.properties;
  contributors = opco ∷ [];
}
record_entry node opco (some existing) = record {
  identifier_hash = existing.identifier_hash;
  kind = existing.kind;
  opco = "multi";
  risk_score = max_optional existing.risk_score node.risk_score;
  properties = merge_dicts existing.properties node.properties;
  contributors = sorted (StringSet.add opco existing.contributors);
}

-- `_record_node`
unfoldable pub record_node : Dict MergedNode → RemoteNode → String → Dict MergedNode
record_node nodes node opco =
    Dict.insert node.identifier_hash
      (record_entry node opco (Dict.lookup node.identifier_hash nodes)) nodes

-- The nodes of the peers with the operator that each comes from, in the order of the loop.
abbrev pub peer_sightings : List RemoteSubgraph → List (RemoteNode × String)
peer_sightings [] = []
peer_sightings (g ∷ gs) = map (λ n. (n, g.opco)) g.nodes ++ peer_sightings gs

-- All nodes in the order of the two loops.
abbrev pub sightings : List RemoteNode → List RemoteSubgraph → List (RemoteNode × String)
sightings local peers = map (λ n. (n, "local")) local ++ peer_sightings peers

unfoldable pub record_all : Dict MergedNode → List (RemoteNode × String) → Dict MergedNode
record_all nodes [] = nodes
record_all nodes ((node, opco) ∷ rest) = record_all (record_node nodes node opco) rest

abbrev pub edge_of : String → RemoteEdge → MergedEdge
edge_of opco e = record {
  src_hash = e.src_hash;
  dst_hash = e.dst_hash;
  kind = e.kind;
  ts_ms = e.ts_ms;
  opco = opco;
  properties = e.properties;
}

abbrev pub peer_edges : List RemoteSubgraph → List MergedEdge
peer_edges [] = []
peer_edges (g ∷ gs) = map (edge_of g.opco) g.edges ++ peer_edges gs

unfoldable pub merged_subgraph_view :
    List RemoteNode → List RemoteEdge → List RemoteSubgraph → MergedView
merged_subgraph_view local_nodes local_edges peers = record {
  nodes = map (λ e. e.1) (record_all [] (sightings local_nodes peers));
  edges = map (edge_of "local") local_edges ++ peer_edges peers;
}

-- `{n.identifier_hash: n for n in nodes}`
abbrev pub by_hash : List MergedNode → Dict MergedNode → Dict MergedNode
by_hash [] d = d
by_hash (n ∷ ns) d = by_hash ns (Dict.insert n.identifier_hash n d)

-- both endpoints are known, and come from two operators
abbrev pub crosses : Option MergedNode → Option MergedNode → Bool
crosses (some src) (some dst) = not (src.opco == dst.opco)
crosses _ _ = false

unfoldable pub cross_opco_edges : MergedView → List MergedEdge
cross_opco_edges v =
    let ids = by_hash v.nodes [] in
    filter (λ e. crosses (Dict.lookup e.src_hash ids) (Dict.lookup e.dst_hash ids)) v.edges
