-- ===== src/BrainGraph/Indices.antt =====
-- What the indices over the edges hold, for services/brain-graph/src/brain_graph/motifs.py
-- (`_by_endpoints`, `_outgoing_dst_ids`, `_outgoing_edges`).
use mathlib.Core.List.{Memᴰ}
use fraudnet.Prelude.{
  ◌≡◌, ◌↔◌, refl, String, Bool, true, List, [], ◌∷◌, ◌==◌, eq_iff, arith, filter, ltb,
}
use fraudnet.Prelude.Members.{All-of_Mem, Mem-filter, All-sort_by, filter-Mem}
use fraudnet.Prelude.Groups.{Groups, Under, find, group-Under}
use fraudnet.BrainGraph.Subgraph.{
  GraphEdge, Subgraph, Endpoints, edges_of, sort_groups, sort_by_ts, same_endpoints, endpoints,
  joins, by_endpoints, outgoing_dst_ids, outgoing_edges,
}

-- An edge of the snapshot, of a kind.
abbrev pub InGraph : Subgraph → String → GraphEdge → Type 0
InGraph sg kind e = Memᴰ e sg.edges × (e.kind ≡ kind)

pub edges_of-InGraph :
    (sg : Subgraph) (kind : String) {e : GraphEdge} → Memᴰ e (edges_of sg kind) → InGraph sg kind e
edges_of-InGraph sg kind {e} m =
    let r = Mem-filter (λ e. e.kind == kind) sg.edges m in (r.0, (eq_iff e.kind kind).0 r.1)

pub InGraph-edges_of :
    (sg : Subgraph) (kind : String) {e : GraphEdge} → InGraph sg kind e → Memᴰ e (edges_of sg kind)
InGraph-edges_of sg kind {e} h =
    filter-Mem (λ e. e.kind == kind) sg.edges h.0 ((eq_iff e.kind kind).1 h.1)

pub same_endpoints_iff : (j k : Endpoints) → (same_endpoints j k ≡ true) ↔ (j ≡ k)
same_endpoints_iff (a, b) (c, d) =
    (λ h. ground (arith, eq_iff a c, eq_iff b d), λ h. ground (arith, eq_iff a c, eq_iff b d))

module _ {K : Type 0} where
  pub sort_groups-Under :
      (P : K → GraphEdge → Type 0) (d : Groups K GraphEdge) → Under P d → Under P (sort_groups d)
  sort_groups-Under P [] h = h
  sort_groups-Under P ((k, es) ∷ d) h =
      (All-sort_by (P k) (λ y x. ltb y.ts_ms x.ts_ms) es h.0, sort_groups-Under P d h.1)

  pub find-sort_groups :
      (same : K → K → Bool) (k : K) (d : Groups K GraphEdge)
      → find same k (sort_groups d) ≡ sort_by_ts (find same k d)
  find-sort_groups same k [] = refl
  find-sort_groups same k ((j, es) ∷ d) = ground (arith, find-sort_groups same k d)

-- An edge of a list under a key.
abbrev pub Holds : {K : Type 0} → (GraphEdge → K) → List GraphEdge → K → GraphEdge → Type 0
Holds key es k e = Memᴰ e es × (key e ≡ k)

pub by_endpoints-Under : (es : List GraphEdge) → Under (Holds endpoints es) (by_endpoints es)
unfolding by_endpoints
by_endpoints-Under es = sort_groups-Under (Holds endpoints es) _ (
    group-Under same_endpoints same_endpoints_iff (Holds endpoints es) endpoints (λ e. e) es []
      (All-of_Mem _ es (λ e m. (m, refl))) tt)

module _ (es : List GraphEdge) (src_kind dst_kind : String) where
  -- An edge between the two kinds, under its source.
  abbrev pub Leaves : String → GraphEdge → Type 0
  Leaves k e = Memᴰ e es × (e.src_kind ≡ src_kind) × (e.dst_kind ≡ dst_kind) × (e.src_id ≡ k)

  joined : (e : GraphEdge) → Memᴰ e (filter (joins src_kind dst_kind) es) → Leaves e.src_id e
  joined e m =
      let r = Mem-filter (joins src_kind dst_kind) es m in
      (
        r.0,
        ground (arith, r.1, eq_iff e.src_kind src_kind, eq_iff e.dst_kind dst_kind),
        ground (arith, r.1, eq_iff e.src_kind src_kind, eq_iff e.dst_kind dst_kind),
        refl,
      )

  pub outgoing_edges-Under : Under Leaves (outgoing_edges es src_kind dst_kind)
  unfolding outgoing_edges
  outgoing_edges-Under = sort_groups-Under Leaves _ (
      group-Under ◌==◌ eq_iff Leaves (λ e. e.src_id) (λ e. e) (filter (joins src_kind dst_kind) es)
        [] (All-of_Mem _ _ joined) tt)

  -- The target of such an edge, under its source.
  abbrev pub Reaches : String → String → Type 0
  Reaches k w = (e : GraphEdge) × Leaves k e × (e.dst_id ≡ w)

  pub outgoing_dst_ids-Under : Under Reaches (outgoing_dst_ids es src_kind dst_kind)
  unfolding outgoing_dst_ids
  outgoing_dst_ids-Under =
      group-Under ◌==◌ eq_iff Reaches (λ e. e.src_id) (λ e. e.dst_id)
        (filter (joins src_kind dst_kind) es) [] (All-of_Mem _ _ (λ e m. (e, joined e m, refl))) tt
