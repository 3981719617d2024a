-- ===== src/StreamGraph/Control.antt =====
-- The control events of services/stream-graph/src/stream_graph/runner.py: the mutations topic
-- and the ids.
use mathlib.Core.List.{append-nil, append_assoc}
use fraudnet.Prelude.{
  ◌&&◌, ℕ, String, Bool, true, false, subst, List, [], ◌∷◌, ◌++◌, map, ◌≡◌, ◌∙◌, refl,
  if◌then◌else◌, All, sym,
}
use fraudnet.Prelude.Text.{take_text}
use fraudnet.StreamGraph.Translate.{GraphOp}
use fraudnet.StreamGraph.Writer.{Op, GraphMutation, Writer, append_to}
use fraudnet.StreamGraph.Runner.{
  GraphMutationV1, Origin, mutation_id, to_mutation, partition_key, payload, dispatch,
}

-- The id does not tell a node's mutation from an edge's.
to_mutation-event_id :
    (o : Origin) (op : GraphOp)
    → (to_mutation o op).event_id ≡ mutation_id o.event_id Op.upsert_node
unfolding to_mutation mutation_id take_text
to_mutation-event_id o (GraphOp.upsert_node n) = refl
to_mutation-event_id o (GraphOp.upsert_edge k s d p) = refl

-- The operations that come before the first whose send is not delivered.
abbrev pub before_failure : List (GraphOp × Bool) → List GraphOp
before_failure [] = []
before_failure ((op, delivered) ∷ ops) =
    let rest = before_failure ops in if delivered then op ∷ rest else []

abbrev pub all_delivered : List (GraphOp × Bool) → Bool
all_delivered [] = true
all_delivered ((op, delivered) ∷ ops) = delivered && all_delivered ops

-- The key and the control event of an operation.
abbrev pub record_of : Origin → GraphOp → String × GraphMutationV1
record_of o op = (partition_key o op, to_mutation o op)

All-record_of :
    (o : Origin) (ops : List GraphOp)
    → All (λ r. r.1.event_id ≡ mutation_id o.event_id Op.upsert_node) (map (record_of o) ops)
All-record_of o [] = tt
All-record_of o (op ∷ ops) = (to_mutation-event_id o op, All-record_of o ops)

module _ {G : Type 0} (query : G → GraphMutation → G) (max_buffer : ℕ) where
  dispatch_lem :
      (o : Origin) (ops : List (GraphOp × Bool)) (w : Writer G)
      (sent : List (String × GraphMutationV1))
      → ((dispatch query max_buffer o ops w sent).2
          ≡ sent ++ map (record_of o) (before_failure ops))
        × ((dispatch query max_buffer o ops w sent).0 ≡ all_delivered ops)
  unfolding dispatch
  dispatch_lem o [] w sent = (sym (append-nil sent), refl)
  dispatch_lem o ((op, true) ∷ ops) w sent =
      let (same, ends) =
        dispatch_lem o ops (append_to query max_buffer (payload op) w)
          (sent ++ record_of o op ∷ []) in
      (
        same ∙ append_assoc sent (record_of o op ∷ []) (map (record_of o) (before_failure ops)),
        ends,
      )
  dispatch_lem o ((op, false) ∷ ops) w sent = (sym (append-nil sent), refl)

  -- An empty topic receives, in order, exactly the control events of the operations before the
  -- first whose send is not delivered, each under its partition key; the loop ends without an
  -- error just where every send is delivered; and all the events carry one and the same event
  -- id, those of nodes and those of edges alike.
  pub dispatch-published :
      (o : Origin) (ops : List (GraphOp × Bool)) (w : Writer G)
      → ((dispatch query max_buffer o ops w []).2 ≡ map (record_of o) (before_failure ops))
        × ((dispatch query max_buffer o ops w []).0 ≡ all_delivered ops)
        × All
            (λ r. r.1.event_id ≡ mutation_id o.event_id Op.upsert_node)
            (dispatch query max_buffer o ops w []).2
  dispatch-published o ops w =
      let (same, ends) = dispatch_lem o ops w [] in
      (
        same,
        ends,
        subst (All (λ r. r.1.event_id ≡ mutation_id o.event_id Op.upsert_node)) (sym same)
            (All-record_of o (before_failure ops)),
      )
