-- ===== src/BrainGraph/Once.antt =====
-- Lists of nodes and edges without repetition, for `_parse_rows` of
-- services/brain-graph/src/brain_graph/subgraph.py.
use fraudnet.Prelude.{◌≡◌, refl, Bool, true, false, ◌||◌, List, [], ◌∷◌, ◌++◌, eq_iff, arith}
use fraudnet.BrainGraph.Subgraph.{GraphNode, GraphEdge}
use fraudnet.BrainGraph.Rows.{Key, Signature, key_of, signature_of, same_key, same_signature}

-- Is there a node of a key, and an edge of a signature?
abbrev pub has_node : List GraphNode → Key → Bool
has_node [] k = false
has_node (n ∷ ns) k = same_key k (key_of n) || has_node ns k

abbrev pub has_edge : List GraphEdge → Signature → Bool
has_edge [] s = false
has_edge (e ∷ es) s = same_signature s (signature_of e) || has_edge es s

-- No node comes after one of its key, no edge after one of its signature.
abbrev pub NodesOnce : List GraphNode → Type 0
NodesOnce [] = Unit
NodesOnce (n ∷ ns) = (has_node ns (key_of n) ≡ false) × NodesOnce ns

abbrev pub EdgesOnce : List GraphEdge → Type 0
EdgesOnce [] = Unit
EdgesOnce (e ∷ es) = (has_edge es (signature_of e) ≡ false) × EdgesOnce es

abbrev pub Connected : List GraphNode → GraphEdge → Type 0
Connected ns e =
    (has_node ns (e.src_kind, e.src_id) ≡ true) × (has_node ns (e.dst_kind, e.dst_id) ≡ true)

same_key_sym : (a b : Key) → same_key a b ≡ same_key b a
same_key_sym a b = ground (arith, eq_iff a.0 b.0, eq_iff b.0 a.0, eq_iff a.1 b.1, eq_iff b.1 a.1)

same_signature_sym : (a b : Signature) → same_signature a b ≡ same_signature b a
same_signature_sym a b = ground (
  arith,
  eq_iff a.0 b.0,
  eq_iff b.0 a.0,
  eq_iff a.1 b.1,
  eq_iff b.1 a.1,
  eq_iff a.2 b.2,
  eq_iff b.2 a.2,
)

pub has_node-append :
    (ns : List GraphNode) (n : GraphNode) (k : Key)
    → has_node (ns ++ n ∷ []) k ≡ (same_key k (key_of n) || has_node ns k)
has_node-append [] n k = refl
has_node-append (a ∷ ns) n k = ground (arith, has_node-append ns n k)

pub has_edge-append :
    (es : List GraphEdge) (e : GraphEdge) (s : Signature)
    → has_edge (es ++ e ∷ []) s ≡ (same_signature s (signature_of e) || has_edge es s)
has_edge-append [] e s = refl
has_edge-append (a ∷ es) e s = ground (arith, has_edge-append es e s)

pub NodesOnce-append :
    (ns : List GraphNode) (n : GraphNode)
    → has_node ns (key_of n) ≡ false
    → NodesOnce ns
    → NodesOnce (ns ++ n ∷ [])
NodesOnce-append [] n new h = (refl, tt)
NodesOnce-append (a ∷ ns) n new h = (
  ground (arith, has_node-append ns n (key_of a), same_key_sym (key_of a) (key_of n), new, h.0),
  NodesOnce-append ns n (ground (arith, new)) h.1,
)

pub EdgesOnce-append :
    (es : List GraphEdge) (e : GraphEdge)
    → has_edge es (signature_of e) ≡ false
    → EdgesOnce es
    → EdgesOnce (es ++ e ∷ [])
EdgesOnce-append [] e new h = (refl, tt)
EdgesOnce-append (a ∷ es) e new h = (
  rw
      (
        has_edge-append es e (signature_of a),
        same_signature_sym (signature_of a) (signature_of e),
        h.0,
        split.0,
      )
      refl,
  EdgesOnce-append es e split.1 h.1,
)
  where
    or_false : (x y : Bool) → (x || y) ≡ false → (x ≡ false) × (y ≡ false)
    or_false true y p = absurd (cc p)
    or_false false y p = (refl, p)

    split :
        (same_signature (signature_of e) (signature_of a) ≡ false)
        × (has_edge es (signature_of e) ≡ false)
    split =
        or_false (same_signature (signature_of e) (signature_of a)) (has_edge es (signature_of e))
          new
