-- ===== src/BrainGraph/Snapshot.antt =====
-- What a parsed snapshot holds, for `_parse_rows` of
-- services/brain-graph/src/brain_graph/subgraph.py.
use fraudnet.Prelude.{
  ℕ, ◌≡◌, ◌∙◌, refl, sym, String, true, Option, none, some, List, [], ◌∷◌, ◌++◌, eq_refl, arith,
  Bool-cases, Option-cases, inl, inr, All, All-append,
}
use fraudnet.Prelude.Members.{any}
use fraudnet.Schemas.{Primitive}
use fraudnet.BrainGraph.Subgraph.{GraphNode, GraphEdge}
use fraudnet.BrainGraph.Rows.{
  Key, Signature, Row, Parsing, key_of, signature_of, same_key, same_signature, add_node, add_edge,
  edge_between, coerce_node, nothing_parsed, parse_row, parse_from, parse_rows, RelationObject,
}
use fraudnet.BrainGraph.Once.{
  has_node, has_edge, NodesOnce, EdgesOnce, Connected, NodesOnce-append, EdgesOnce-append,
  has_node-append, has_edge-append,
}

-- What parsing keeps.
record IsParsed (p : Parsing) : Type 0 where
  pub seen_nodes : (k : Key) → any (same_key k) p.seen_nodes ≡ has_node p.sg.nodes k
  pub seen_edges : (s : Signature) → any (same_signature s) p.seen_edges ≡ has_edge p.sg.edges s
  pub nodes_once : NodesOnce p.sg.nodes
  pub edges_once : EdgesOnce p.sg.edges
  pub connected : All (Connected p.sg.nodes) p.sg.edges

Connected-append :
    (ns : List GraphNode) (n : GraphNode) (es : List GraphEdge)
    → All (Connected ns) es
    → All (Connected (ns ++ n ∷ [])) es
Connected-append ns n [] h = tt
Connected-append ns n (e ∷ es) h = (
  (
    ground (arith, has_node-append ns n (e.src_kind, e.src_id), h.0.0),
    ground (arith, has_node-append ns n (e.dst_kind, e.dst_id), h.0.1),
  ),
  Connected-append ns n es h.1,
)

add_node-IsParsed : (o : Option GraphNode) (p : Parsing) → IsParsed p → IsParsed (add_node o p)
unfolding add_node
add_node-IsParsed none p h = h
add_node-IsParsed (some n) p h = elim (Bool-cases (any (same_key (key_of n)) p.seen_nodes)) [
  | inl old ↦ rw (old, add_node) h
  | inr new ↦
      rw (new, add_node)
        (record {
          seen_nodes = λ k. rw (h.seen_nodes k, has_node-append p.sg.nodes n k) refl;
          seen_edges = h.seen_edges;
          nodes_once =
              NodesOnce-append p.sg.nodes n (sym (h.seen_nodes (key_of n)) ∙ new) h.nodes_once;
          edges_once = h.edges_once;
          connected = Connected-append p.sg.nodes n p.sg.edges h.connected;
        })
]

-- A node that was read is among the nodes.
abbrev Added : List GraphNode → Option GraphNode → Type 0
Added ns none = Unit
Added ns (some n) = has_node ns (key_of n) ≡ true

add_node-Added : (o : Option GraphNode) (p : Parsing) → IsParsed p → Added (add_node o p).sg.nodes o
unfolding add_node
add_node-Added none p h = tt
add_node-Added (some n) p h = elim (Bool-cases (any (same_key (key_of n)) p.seen_nodes)) [
  | inl old ↦ rw (old, add_node) (sym (h.seen_nodes (key_of n)) ∙ old)
  | inr new ↦
      rw (new, add_node)
        (ground (arith, has_node-append p.sg.nodes n (key_of n), eq_refl n.kind, eq_refl n.id))
]

add_node_keeps :
    (o o' : Option GraphNode) (p : Parsing) → Added p.sg.nodes o' → Added (add_node o p).sg.nodes o'
unfolding add_node
add_node_keeps o none p h = tt
add_node_keeps none (some n') p h = h
add_node_keeps (some n) (some n') p h = elim (Bool-cases (any (same_key (key_of n)) p.seen_nodes)) [
  | inl old ↦ rw (old, add_node) h
  | inr new ↦ rw (new, add_node) (ground (arith, has_node-append p.sg.nodes n (key_of n'), h))
]

-- An edge that was read has both its ends.
abbrev Ended : List GraphNode → Option GraphEdge → Type 0
Ended ns none = Unit
Ended ns (some e) = Connected ns e

add_edge-IsParsed :
    (o : Option GraphEdge) (p : Parsing) → Ended p.sg.nodes o → IsParsed p → IsParsed (add_edge o p)
unfolding add_edge
add_edge-IsParsed none p ended h = h
add_edge-IsParsed (some e) p ended h =
    elim (Bool-cases (any (same_signature (signature_of e)) p.seen_edges)) [
      | inl old ↦ rw (old, add_edge) h
      | inr new ↦
          rw (new, add_edge)
            (record {
              seen_nodes = h.seen_nodes;
              seen_edges = λ s. rw (h.seen_edges s, has_edge-append p.sg.edges e s) refl;
              nodes_once = h.nodes_once;
              edges_once =
                  EdgesOnce-append p.sg.edges e (sym (h.seen_edges (signature_of e)) ∙ new)
                    h.edges_once;
              connected =
                  All-append (Connected p.sg.nodes) p.sg.edges (e ∷ []) h.connected (ended, tt);
            })
    ]

module _ (text_of : Primitive → String) (time_of : Option Primitive → ℕ) where
  edge_between-Ended :
      (ns : List GraphNode) (src dst : Option GraphNode) (r : Option RelationObject)
      → Added ns src
      → Added ns dst
      → Ended ns (edge_between text_of time_of src dst r)
  unfolding edge_between
  edge_between-Ended ns none dst r hs hd = tt
  edge_between-Ended ns (some src) none r hs hd = tt
  edge_between-Ended ns (some src) (some dst) none hs hd = tt
  edge_between-Ended ns (some src) (some dst) (some r) hs hd = elim (Option-cases r.rel_type) [
    | inl e ↦ rw (e, edge_between) tt
    | inr (kind, e) ↦ rw (e, edge_between) (hs, hd)
  ]

  parse_row-IsParsed :
      (p : Parsing) (row : Row) → IsParsed p → IsParsed (parse_row text_of time_of p row)
  unfolding parse_row
  parse_row-IsParsed p row h =
      let n = coerce_node text_of time_of row.n in
      let m = coerce_node text_of time_of row.m in
      let first : IsParsed (add_node n p) = add_node-IsParsed n p h in
      add_edge-IsParsed (edge_between text_of time_of n m row.r) (add_node m (add_node n p))
        (edge_between-Ended (add_node m (add_node n p)).sg.nodes n m row.r
          (add_node_keeps m n (add_node n p) (add_node-Added n p h))
          (add_node-Added m (add_node n p) first))
        (add_node-IsParsed m (add_node n p) first)

  parse_from-IsParsed :
      (p : Parsing) (rows : List Row) → IsParsed p → IsParsed (parse_from text_of time_of p rows)
  unfolding parse_from
  parse_from-IsParsed p [] h = h
  parse_from-IsParsed p (row ∷ rows) h =
      parse_from-IsParsed (parse_row text_of time_of p row) rows (parse_row-IsParsed p row h)

  -- Whatever the rows are, the snapshot has no two nodes of one kind and id, no two edges of
  -- the same ends, kind and time, and both ends of each of its edges are nodes of it.
  pub parse_rows-Connected :
      (rows : List Row)
      → NodesOnce (parse_rows text_of time_of rows).nodes
        × EdgesOnce (parse_rows text_of time_of rows).edges
        × All
            (Connected (parse_rows text_of time_of rows).nodes)
            (parse_rows text_of time_of rows).edges
  unfolding parse_rows
  parse_rows-Connected rows =
      let h : IsParsed (parse_from text_of time_of nothing_parsed rows) =
        parse_from-IsParsed nothing_parsed rows (record {
          seen_nodes = λ k. refl;
          seen_edges = λ s. refl;
          nodes_once = tt;
          edges_once = tt;
          connected = tt;
        }) in
      (h.nodes_once, h.edges_once, h.connected)
