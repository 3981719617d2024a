-- ===== src/BrainGraph/Rows.antt =====
-- The reading of a snapshot from the rows of a query, `_parse_rows` of
-- services/brain-graph/src/brain_graph/subgraph.py. `text_of` is Python's `str`, and `time_of` the
-- conversion of the property `ts` to milliseconds.
use fraudnet.Prelude.{
  ℕ, zero, suc, String, Bool, true, false, not, ◌&&◌, Option, none, some, List, [], ◌∷◌, ◌++◌, ◌==◌,
  if◌then◌else◌, leb,
}
use fraudnet.Prelude.Dict
use fraudnet.Prelude.Dict.{Dict}
use fraudnet.Prelude.Members.{any}
use fraudnet.Schemas.{Primitive, str, int, float, bool, negative_int, negative_float}
use fraudnet.BrainGraph.Subgraph.{GraphNode, GraphEdge, Subgraph}

-- An object of the driver or a plain dictionary, by its labels and properties; `other` has neither.
pub data NodeObject : Type 0 where
  labelled : List String → Dict Primitive → NodeObject
  other : NodeObject

pub record RelationObject : Type 0 where
  pub rel_type : Option String
  pub properties : Dict Primitive

pub record Row : Type 0 where
  pub n : Option NodeObject
  pub r : Option RelationObject
  pub m : Option NodeObject

abbrev pub node_key_by_kind : Dict String
node_key_by_kind =
    ("Number", "msisdn")
    ∷ ("Wallet", "wallet_id")
    ∷ ("Device", "imei")
    ∷ ("Account", "account_hash")
    ∷ ("Ring", "ring_id")
    ∷ ("Domain", "fqdn")
    ∷ ("IPEndpoint", "ip")
    ∷ []

-- `not node_id` of a value
abbrev pub is_falsy : Primitive → Bool
is_falsy (str s) = s == ""
is_falsy (int zero) = true
is_falsy (int (suc n)) = false
is_falsy (float zero) = true
is_falsy (float (suc n)) = false
is_falsy (bool b) = not b
is_falsy (negative_int n) = false
is_falsy (negative_float n) = false

-- The first label that names a kind, with the property of its id
unfoldable pub kind_of : List String → Option (String × String)
kind_of [] = none
kind_of (l ∷ ls) = elim (Dict.lookup l node_key_by_kind) [
  | none ↦ kind_of ls
  | some key ↦ some (l, key)
]

-- `(node.kind, node.id)`, and the signature of an edge
abbrev pub Key : Type 0
Key = String × String

abbrev pub key_of : GraphNode → Key
key_of n = (n.kind, n.id)

abbrev pub Signature : Type 0
Signature = String × String × String × ℕ

abbrev pub signature_of : GraphEdge → Signature
signature_of e = (e.src_id, e.dst_id, e.kind, e.ts_ms)

abbrev pub same_key : Key → Key → Bool
same_key a b = a.0 == b.0 && a.1 == b.1

abbrev pub same_signature : Signature → Signature → Bool
same_signature a b = a.0 == b.0 && (a.1 == b.1 && (a.2 == b.2 && (leb a.3 b.3 && leb b.3 a.3)))

pub record Parsing : Type 0 where
  pub sg : Subgraph
  pub seen_nodes : List Key
  pub seen_edges : List Signature

abbrev pub nothing_parsed : Parsing
nothing_parsed = record { sg = record { nodes = []; edges = [] }; seen_nodes = []; seen_edges = [] }

-- `if node and (node.kind, node.id) not in seen_nodes: ...`
unfoldable pub add_node : Option GraphNode → Parsing → Parsing
add_node none p = p
add_node (some node) p = if any (same_key (key_of node)) p.seen_nodes then p else record p {
  sg = record p.sg { nodes = p.sg.nodes ++ node ∷ [] };
  seen_nodes = key_of node ∷ p.seen_nodes;
}

unfoldable pub add_edge : Option GraphEdge → Parsing → Parsing
add_edge none p = p
add_edge (some e) p = if any (same_signature (signature_of e)) p.seen_edges then p else record p {
  sg = record p.sg { edges = p.sg.edges ++ e ∷ [] };
  seen_edges = signature_of e ∷ p.seen_edges;
}

module _ (text_of : Primitive → String) (time_of : Option Primitive → ℕ) where
  unfoldable pub node_with : Dict Primitive → String → Option Primitive → Option GraphNode
  node_with props kind none = none
  node_with props kind (some v) =
      if is_falsy v then none else some (record { kind = kind; id = text_of v; properties = props })

  unfoldable pub node_of_kind : Dict Primitive → Option (String × String) → Option GraphNode
  node_of_kind props none = none
  node_of_kind props (some (kind, key)) = node_with props kind (Dict.lookup key props)

  -- `_coerce_node`, of an object that is there
  unfoldable pub coerce_node : Option NodeObject → Option GraphNode
  coerce_node none = none
  coerce_node (some other) = none
  coerce_node (some (labelled labels props)) = node_of_kind props (kind_of labels)

  unfoldable pub edge_between :
      Option GraphNode → Option GraphNode → Option RelationObject → Option GraphEdge
  edge_between (some src) (some dst) (some r) = elim r.rel_type [
    | none ↦ none
    | some kind ↦ some (record {
      kind = kind;
      src_kind = src.kind;
      src_id = src.id;
      dst_kind = dst.kind;
      dst_id = dst.id;
      ts_ms = time_of (Dict.lookup "ts" r.properties);
      properties = r.properties;
    })
  ]
  edge_between none dst r = none
  edge_between (some src) none r = none
  edge_between (some src) (some dst) none = none

  unfoldable pub parse_row : Parsing → Row → Parsing
  parse_row p row =
      add_edge (edge_between (coerce_node row.n) (coerce_node row.m) row.r)
        (add_node (coerce_node row.m) (add_node (coerce_node row.n) p))

  unfoldable pub parse_from : Parsing → List Row → Parsing
  parse_from p [] = p
  parse_from p (row ∷ rows) = parse_from (parse_row p row) rows

  unfoldable pub parse_rows : List Row → Subgraph
  parse_rows rows = (parse_from nothing_parsed rows).sg
