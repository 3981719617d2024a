-- ===== src/StreamGraph/Closed.antt =====
-- Lists of graph operations in which every edge comes after the nodes at its ends, as the query of
-- packages/graph-client/src/fraudnet/graph/batch_writer.py needs, which matches both ends before it
-- creates the edge.
use fraudnet.Prelude.{String, Option, none, some, List, [], ◌∷◌, ◌++◌, ◌≡◌, ◌⊎◌, inr}
use fraudnet.StreamGraph.Translate.{Node, GraphOp}

abbrev pub Has : Node → List Node → Type 0
Has n [] = ⊥
Has n (x ∷ xs) = (x ≡ n) ⊎ Has n xs

-- After the nodes `seen`, every edge has both ends among these and the nodes upserted before it.
abbrev pub IsClosed : List Node → List GraphOp → Type 0
IsClosed seen [] = Unit
IsClosed seen (GraphOp.upsert_node n ∷ ops) = IsClosed (n ∷ seen) ops
IsClosed seen (GraphOp.upsert_edge _ src dst _ ∷ ops) =
    Has src seen × Has dst seen × IsClosed seen ops

-- The nodes after some operations.
abbrev pub nodes_after : List Node → List GraphOp → List Node
nodes_after seen [] = seen
nodes_after seen (GraphOp.upsert_node n ∷ ops) = nodes_after (n ∷ seen) ops
nodes_after seen (GraphOp.upsert_edge _ _ _ _ ∷ ops) = nodes_after seen ops

pub IsClosed-append :
    (seen : List Node) (xs ys : List GraphOp)
    → IsClosed seen xs
    → IsClosed (nodes_after seen xs) ys
    → IsClosed seen (xs ++ ys)
IsClosed-append seen [] ys hx hy = hy
IsClosed-append seen (GraphOp.upsert_node n ∷ xs) ys hx hy = IsClosed-append (n ∷ seen) xs ys hx hy
IsClosed-append seen (GraphOp.upsert_edge k s d p ∷ xs) ys (hs, hd, hx) hy =
    (hs, hd, IsClosed-append seen xs ys hx hy)

pub Has-nodes_after :
    (n : Node) (seen : List Node) (ops : List GraphOp) → Has n seen → Has n (nodes_after seen ops)
Has-nodes_after n seen [] h = h
Has-nodes_after n seen (GraphOp.upsert_node m ∷ ops) h = Has-nodes_after n (m ∷ seen) ops (inr h)
Has-nodes_after n seen (GraphOp.upsert_edge _ _ _ _ ∷ ops) h = Has-nodes_after n seen ops h

-- The node of an optional id is among those seen.
abbrev pub HasIf : (String → Node) → Option String → List Node → Type 0
HasIf kind none seen = Unit
HasIf kind (some id) seen = Has (kind id) seen

pub HasIf-nodes_after :
    (kind : String → Node) (o : Option String) (seen : List Node) (ops : List GraphOp)
    → HasIf kind o seen
    → HasIf kind o (nodes_after seen ops)
HasIf-nodes_after kind none seen ops h = tt
HasIf-nodes_after kind (some id) seen ops h = Has-nodes_after (kind id) seen ops h
