-- ===== src/BrainGraph/Chains.antt =====
-- `detect_mule_chains` of services/brain-graph/src/brain_graph/motifs.py. The inner function
-- `go` takes a fuel, and `none` says that it ran out. What `go` appends to `out` is the list it
-- returns.
use fraudnet.Prelude.{
  ℕ, zero, suc, ◌+◌, ◌-◌, ◌*◌, min, String, Bool, true, false, Option, none, some, List, [], ◌∷◌,
  ◌++◌, ltb, leb, ◌&&◌, ◌||◌, ◌==◌, if◌then◌else◌, length, map,
}
use fraudnet.Prelude.Dict
use fraudnet.Prelude.Members.{first, any, take, sort_by}
use fraudnet.Prelude.Groups.{Groups, find, group}
use fraudnet.Prelude.StringSet.{member}
use fraudnet.Schemas.{Primitive, int}
use fraudnet.BrainGraph.Subgraph.{GraphEdge, Subgraph, MotifMatch, edges_of, sort_groups}

abbrev pub Chain : Type 0
Chain = List String

-- `if last_ts_ms and ...` of a time
abbrev pub is_set : ℕ → Bool
is_set zero = false
is_set (suc n) = true

-- The three tests under which the loop goes on to the next edge.
unfoldable pub skips : ℕ → Chain → ℕ → GraphEdge → Bool
skips window path last e =
    member e.dst_id path
    || ((is_set last && ltb (last + window) e.ts_ms) || (is_set last && ltb e.ts_ms last))

abbrev pub both : Option (List Chain) → Option (List Chain) → Option (List Chain)
both none b = none
both (some a) none = none
both (some a) (some b) = some (a ++ b)

-- The loop over the edges of a node, with `go` for the next one.
unfoldable pub hops :
    (String → Chain → ℕ → Option (List Chain))
    → ℕ
    → Chain
    → ℕ
    → List GraphEdge
    → Option (List Chain)
hops go window path last [] = some []
hops go window path last (e ∷ es) =
    let rest = hops go window path last es in
    if skips window path last e
    then rest
    else both (go e.dst_id (path ++ e.dst_id ∷ []) e.ts_ms) rest

abbrev pub emit : ℕ → Chain → List Chain
emit min_length path = if leb min_length (length path) then path ∷ [] else []

module _ (by_src : Groups String GraphEdge) (min_length max_length window : ℕ) where
  unfoldable pub go : ℕ → String → Chain → ℕ → Option (List Chain)
  go zero node path last = none
  go (suc fuel) node path last = elim (leb max_length (length path)) [
    | true ↦ some (emit min_length path)
    | false ↦
        both (some (emit min_length path)) (hops (go fuel) window path last (find ◌==◌ node by_src))
  ]

abbrev pub chain_eq : Chain → Chain → Bool
chain_eq [] [] = true
chain_eq [] (b ∷ bs) = false
chain_eq (a ∷ as') [] = false
chain_eq (a ∷ as') (b ∷ bs) = a == b && chain_eq as' bs

-- `any(sig[: len(k)] == tuple(k) for k in keep)`
abbrev pub covered : List Chain → Chain → Bool
covered keep chain = any (λ k. chain_eq (take (length k) chain) k) keep

unfoldable pub keep_chains : List Chain → List Chain → List Chain
keep_chains keep [] = keep
keep_chains keep (chain ∷ rest) =
    keep_chains (if covered keep chain then keep else keep ++ chain ∷ []) rest

-- `out.sort(key=len, reverse=True)`, which keeps the order of chains of one length
abbrev pub sort_by_len : List Chain → List Chain
sort_by_len = sort_by (λ d c. ltb (length c) (length d))

-- A path grows by one node with each call, and none of `max_length` nodes goes on.
unfoldable pub walk_chains : Groups String GraphEdge → ℕ → ℕ → ℕ → String → Option (List Chain)
walk_chains by_src min_length max_length window start =
    elim (go by_src min_length max_length window (suc max_length) start (start ∷ []) 0) [
      | none ↦ none
      | some out ↦ some (keep_chains [] (sort_by_len out))
    ]

-- The amount of a hop that `_edges_for` found
abbrev pub hop_amount : (Option Primitive → ℕ) → Option GraphEdge → ℕ
hop_amount int_of none = 0
hop_amount int_of (some e) = int_of (Dict.lookup "amount" e.properties)

-- The hop that `_edges_for` finds for two nodes: the first of the edges between them.
abbrev pub amounts : (Option Primitive → ℕ) → Groups String GraphEdge → Chain → ℕ
amounts int_of by_src [] = 0
amounts int_of by_src (a ∷ []) = 0
amounts int_of by_src (a ∷ b ∷ chain) =
    hop_amount int_of (first (λ e. e.dst_id == b) (find ◌==◌ a by_src))
    + amounts int_of by_src (b ∷ chain)

abbrev pub chain_match : (Option Primitive → ℕ) → Groups String GraphEdge → ℕ → Chain → MotifMatch
chain_match int_of by_src min_length chain = record {
  motif = "mule_chain";
  members = map (λ w. ("Wallet", w)) chain;
  confidence = min 95 (60 + 10 * (length chain - min_length));
  evidence =
      ("length", int (length chain))
      ∷ ("total_amount_minor", int (amounts int_of by_src chain))
      ∷ [];
}

-- The edges of a kind, by their source and in the order of their times.
abbrev pub sent_by_src : Subgraph → Groups String GraphEdge
sent_by_src sg = sort_groups (group ◌==◌ (λ e. e.src_id) (λ e. e) (edges_of sg "SENT") [])

unfoldable pub mule_chains_from :
    (Option Primitive → ℕ)
    → Groups String GraphEdge
    → ℕ
    → ℕ
    → ℕ
    → Groups String GraphEdge
    → Option (List MotifMatch)
mule_chains_from int_of by_src min_length max_length window [] = some []
mule_chains_from int_of by_src min_length max_length window ((start, es) ∷ rest) =
    let later = mule_chains_from int_of by_src min_length max_length window rest in
    elim (walk_chains by_src min_length max_length window start) [
      | none ↦ none
      | some chains ↦ elim later [
        | none ↦ none
        | some matches ↦ some (map (chain_match int_of by_src min_length) chains ++ matches)
      ]
    ]

unfoldable pub detect_mule_chains :
    (Option Primitive → ℕ) → Subgraph → ℕ → ℕ → ℕ → Option (List MotifMatch)
detect_mule_chains int_of sg min_length max_length window =
    mule_chains_from int_of (sent_by_src sg) min_length max_length window (sent_by_src sg)
