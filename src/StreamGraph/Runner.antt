-- ===== src/StreamGraph/Runner.antt =====
-- services/stream-graph/src/stream_graph/runner.py: each operation of an event goes to the buffered
-- writer and, as a control event of its own, to the mutations topic. Whether a send is delivered is
-- an input, `delivered`; a send that raises stops the loop, and the consumer takes the error.
-- The operation's `to_mutation` is in services/stream-graph/src/stream_graph/pipeline.py.
use fraudnet.Prelude.{
  ℕ, String, Bool, true, false, Option, none, some, List, [], ◌∷◌, ◌++◌, if◌then◌else◌, truthy,
}
use fraudnet.Prelude.Dict.{Dict}
use fraudnet.Prelude.Text.{concat, take_text}
use fraudnet.Schemas.{Primitive}
use fraudnet.StreamGraph.Translate.{Node, GraphOp}
use fraudnet.StreamGraph.Writer.{Op, GraphMutation, Writer, append_to}

-- `GraphMutationV1`
pub record GraphMutationV1 : Type 0 where
  pub event_id : String
  pub event_ts_ms : ℕ
  pub ingest_ts_ms : ℕ
  pub source : String
  pub tenant_id : String
  pub op : Op
  pub node : Option Node
  pub edge_kind : Option String
  pub src : Option Node
  pub dst : Option Node
  pub properties : Dict Primitive

-- The event that an operation comes from.
pub record Origin : Type 0 where
  pub event_id : String
  pub event_ts_ms : ℕ
  pub ingest_ts_ms : ℕ
  pub source_topic : String

abbrev pub op_name : Op → String
op_name Op.upsert_node = "upsert_node"
op_name Op.upsert_edge = "upsert_edge"

-- `f"gm_{event_id[:32]}_{self.op[:4]}"`
unfoldable pub mutation_id : String → Op → String
mutation_id event_id op =
    concat ("gm_" ∷ take_text 32 event_id ∷ "_" ∷ take_text 4 (op_name op) ∷ [])

unfoldable pub to_mutation : Origin → GraphOp → GraphMutationV1
to_mutation o (GraphOp.upsert_node n) = record {
  event_id = mutation_id o.event_id Op.upsert_node;
  event_ts_ms = o.event_ts_ms;
  ingest_ts_ms = o.ingest_ts_ms;
  source = concat ("stream-graph:" ∷ o.source_topic ∷ []);
  tenant_id = "mtn-ghana";
  op = Op.upsert_node;
  node = some n;
  edge_kind = none;
  src = none;
  dst = none;
  properties = [];
}
to_mutation o (GraphOp.upsert_edge kind src dst properties) = record {
  event_id = mutation_id o.event_id Op.upsert_edge;
  event_ts_ms = o.event_ts_ms;
  ingest_ts_ms = o.ingest_ts_ms;
  source = concat ("stream-graph:" ∷ o.source_topic ∷ []);
  tenant_id = "mtn-ghana";
  op = Op.upsert_edge;
  node = none;
  edge_kind = some kind;
  src = some src;
  dst = some dst;
  properties = properties;
}

-- The payload for the writer: ids and properties, without the kinds.
unfoldable pub payload : GraphOp → GraphMutation
payload (GraphOp.upsert_node n) = record {
  op = Op.upsert_node;
  id = n.1;
  src = "";
  dst = "";
  properties = [];
}
payload (GraphOp.upsert_edge kind src dst properties) = record {
  op = Op.upsert_edge;
  id = "";
  src = src.1;
  dst = dst.1;
  properties = properties;
}

-- `mutation.node_id or mutation.src_id or event_id`
unfoldable pub partition_key : Origin → GraphOp → String
partition_key o (GraphOp.upsert_node n) = elim (truthy (some n.1)) [
  | none ↦ o.event_id
  | some id ↦ id
]
partition_key o (GraphOp.upsert_edge kind src dst properties) = elim (truthy (some src.1)) [
  | none ↦ o.event_id
  | some id ↦ id
]

module _ {G : Type 0} (query : G → GraphMutation → G) (max_buffer : ℕ) where
  -- `_dispatch` of operations, each with whether its send is delivered: whether it ended without an
  -- error, the writer, and what the topic received
  unfoldable pub dispatch :
      Origin
      → List (GraphOp × Bool)
      → Writer G
      → List (String × GraphMutationV1)
      → Bool × Writer G × List (String × GraphMutationV1)
  dispatch o [] w sent = (true, w, sent)
  dispatch o ((op, delivered) ∷ ops) w sent =
      let w' = append_to query max_buffer (payload op) w in
      let rest = dispatch o ops w' (sent ++ (partition_key o op, to_mutation o op) ∷ []) in
      if delivered then rest else (false, w', sent)
