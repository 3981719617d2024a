-- ===== src/BrainGraph/Walks.antt =====
-- Walks along payments in time order, and the runs of `go` that follow them, for
-- `_walk_chains` of services/brain-graph/src/brain_graph/motifs.py.
use mathlib.Core.List.{Memᴰ}
use fraudnet.Prelude.{
  ℕ, zero, suc, ◌+◌, ◌≤◌, ◌<◌, ◌≡◌, ◌∙◌, refl, subst, String, true, false, ◌⊎◌, Option, none, some,
  List, [], ◌∷◌, ◌++◌, ◌==◌, arith, Bool-cases, inl, inr, leb, length, length-append, some_eq,
}
use fraudnet.Prelude.Groups.{Groups, find}
use fraudnet.Prelude.StringSet.{member}
use fraudnet.BrainGraph.Subgraph.{GraphEdge}
use fraudnet.BrainGraph.Chains.{Chain, skips, both, hops, emit, go}

-- A hop that may follow one at `last`, where 0 stands for no hop before.
abbrev pub InTime : ℕ → ℕ → ℕ → Type 0
InTime window last ts = (last ≡ 0) ⊎ ((last ≤ ts) × (ts ≤ last + window))

-- The walks from a node over the hops that leave each node: no node comes twice, and each hop comes
-- no earlier than the one before it and within the window.
pub data Walk (Hop : String → GraphEdge → Type 0) (window : ℕ) (start : String)
    : String → Chain → ℕ → Type 0 where
  here : Walk Hop window start start (start ∷ []) 0
  hop :
      {node : String} {path : Chain} {last : ℕ}
      → Walk Hop window start node path last
      → (e : GraphEdge) → Hop node e
      → member e.dst_id path ≡ false
      → InTime window last e.ts_ms
      → Walk Hop window start e.dst_id (path ++ e.dst_id ∷ []) e.ts_ms

module _ (Hop Hop' : String → GraphEdge → Type 0)
    (each : (node : String) (e : GraphEdge) → Hop node e → Hop' node e) where
  pub Walk-map :
      (window : ℕ) (start : String) {node : String} {path : Chain} {last : ℕ}
      → Walk Hop window start node path last
      → Walk Hop' window start node path last
  Walk-map window start Walk.here = Walk.here
  Walk-map window start (Walk.hop w e h new time) =
      Walk.hop (Walk-map window start w) e (each _ e h) new time

-- A walk of two nodes or more leaves its start.
pub Walk-leaves :
    {Hop : String → GraphEdge → Type 0} (window : ℕ) (start : String) {node : String} {path : Chain}
    {last : ℕ}
    → Walk Hop window start node path last
    → ((node ≡ start) × (length path ≡ 1)) ⊎ ((e : GraphEdge) × Hop start e)
Walk-leaves window start Walk.here = inl (refl, refl)
Walk-leaves {Hop} window start (Walk.hop w e h new time) = elim (Walk-leaves window start w) [
  | inl first ↦ inr (e, subst (λ n. Hop n e) first.0 h)
  | inr found ↦ inr found
]

-- The edges under a node.
abbrev pub UnderNode : Groups String GraphEdge → String → GraphEdge → Type 0
UnderNode by_src node e = Memᴰ e (find ◌==◌ node by_src)

pub skips-InTime :
    (window : ℕ) (path : Chain) (last : ℕ) (e : GraphEdge)
    → skips window path last e ≡ false
    → (member e.dst_id path ≡ false) × InTime window last e.ts_ms
unfolding skips
skips-InTime window path zero e h = (ground arith, inl refl)
skips-InTime window path (suc n) e h = (ground arith, inr (ground arith, ground arith))

pub InTime-skips :
    (window : ℕ) (path : Chain) (last : ℕ) (e : GraphEdge)
    → member e.dst_id path ≡ false
    → InTime window last e.ts_ms
    → skips window path last e ≡ false
unfolding skips
InTime-skips window path zero e h t = ground arith
InTime-skips window path (suc n) e h (inl t) = absurd (omega arith)
InTime-skips window path (suc n) e h (inr t) = ground arith

pub length-snoc : (path : Chain) (a : String) → length (path ++ a ∷ []) ≡ suc (length path)
length-snoc path a = omega (arith, length-append path (a ∷ []))

pub both-eq_some :
    (a b : Option (List Chain)) {r : List Chain}
    → both a b ≡ some r
    → (x : List Chain) × (y : List Chain) × (a ≡ some x) × (b ≡ some y) × (x ++ y ≡ r)
both-eq_some none b h = cc
both-eq_some (some x) none h = cc
both-eq_some (some x) (some y) h = (x, y, refl, refl, some_eq h)

-- The branches of the loop and of `go`.
pub hops_skip :
    (rec : String → Chain → ℕ → Option (List Chain)) (window : ℕ) (path : Chain) (last : ℕ)
    (e : GraphEdge) (es : List GraphEdge)
    → skips window path last e ≡ true
    → hops rec window path last (e ∷ es) ≡ hops rec window path last es
unfolding hops
hops_skip rec window path last e es s = rw s refl

pub hops_take :
    (rec : String → Chain → ℕ → Option (List Chain)) (window : ℕ) (path : Chain) (last : ℕ)
    (e : GraphEdge) (es : List GraphEdge)
    → skips window path last e ≡ false
    → hops rec window path last (e ∷ es)
      ≡ both (rec e.dst_id (path ++ e.dst_id ∷ []) e.ts_ms) (hops rec window path last es)
unfolding hops
hops_take rec window path last e es s = rw s refl

module _ (by_src : Groups String GraphEdge) (min_length max_length window fuel : ℕ) where
  pub go_full :
      (node : String) (path : Chain) (last : ℕ)
      → leb max_length (length path) ≡ true
      → go by_src min_length max_length window (suc fuel) node path last
        ≡ some (emit min_length path)
  unfolding go
  go_full node path last full = rw (full, go) refl

  pub go_room :
      (node : String) (path : Chain) (last : ℕ)
      → leb max_length (length path) ≡ false
      → go by_src min_length max_length window (suc fuel) node path last
        ≡ both (some (emit min_length path)) (
            hops
              (go by_src min_length max_length window fuel)
              window
              path
              last
              (find ◌==◌ node by_src))
  unfolding go
  go_room node path last room = rw (room, go) refl

-- Enough fuel: `go` has an answer.
module _ (by_src : Groups String GraphEdge) (min_length max_length window : ℕ) where
  hops_total :
      (rec : String → Chain → ℕ → Option (List Chain)) (path : Chain) (last : ℕ)
      (es : List GraphEdge)
      → ((a : String) (ts : ℕ) → (r : List Chain) × (rec a (path ++ a ∷ []) ts ≡ some r))
      → (r : List Chain) × (hops rec window path last es ≡ some r)
  unfolding hops
  hops_total rec path last [] answer = ([], refl)
  hops_total rec path last (e ∷ es) answer =
      let rest = hops_total rec path last es answer in
      let next = answer e.dst_id e.ts_ms in
      elim (Bool-cases (skips window path last e)) [
        | inl s ↦ (rest.0, hops_skip rec window path last e es s ∙ rest.1)
        | inr s ↦
            (next.0 ++ rest.0, rw (hops_take rec window path last e es s, next.1, rest.1) refl)
      ]

  pub go_total :
      (fuel : ℕ) (node : String) (path : Chain) (last : ℕ)
      → 0 < fuel
      → max_length < fuel + length path
      → (r : List Chain) × (go by_src min_length max_length window fuel node path last ≡ some r)
  unfolding go
  go_total zero node path last some' enough = absurd (omega arith)
  go_total (suc fuel) node path last some' enough =
      elim (Bool-cases (leb max_length (length path))) [
        | inl full ↦ (
          emit min_length path,
          go_full by_src min_length max_length window fuel node path last full,
        )
        | inr room ↦
            let rest =
              hops_total (go by_src min_length max_length window fuel) path last
                (find ◌==◌ node by_src)
                (λ a ts.
                  go_total fuel a (path ++ a ∷ []) ts (ground arith)
                    (ground (arith, length-snoc path a))) in
            (
              emit min_length path ++ rest.0,
              rw (go_room by_src min_length max_length window fuel node path last room, rest.1)
                  refl,
            )
      ]
