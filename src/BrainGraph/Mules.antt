-- ===== src/BrainGraph/Mules.antt =====
-- What the chains of `detect_mule_chains` are (services/brain-graph/src/brain_graph/motifs.py).
use fraudnet.Prelude.{
  ℕ, zero, suc, ◌≤◌, ◌≡◌, ◌∙◌, sym, subst, String, false, Option, some, List, [], ◌∷◌, ◌++◌, ◌==◌,
  arith, Bool-cases, inl, inr, leb, length, All, All-append, some_eq,
}
use fraudnet.Prelude.Members.{All-of_Mem}
use fraudnet.Prelude.Groups.{Groups, find}
use fraudnet.BrainGraph.Subgraph.{GraphEdge}
use fraudnet.BrainGraph.Chains.{Chain, skips, hops, emit, go}
use fraudnet.BrainGraph.Walks.{
  Walk, UnderNode, skips-InTime, hops_skip, hops_take, go_full, go_room, length-snoc, both-eq_some,
}

module _ (by_src : Groups String GraphEdge) (min_length max_length window : ℕ)
    (start : String) where
  -- A walk from the start of an allowed length.
  abbrev pub IsChain : Chain → Type 0
  IsChain c =
      (node : String) × (last : ℕ) × Walk (UnderNode by_src) window start node c last
      × (min_length ≤ length c)
      × (length c ≤ max_length)

  emit-IsChain :
      (node : String) (path : Chain) (last : ℕ)
      → Walk (UnderNode by_src) window start node path last
      → length path ≤ max_length
      → All IsChain (emit min_length path)
  emit-IsChain node path last w short = elim (Bool-cases (leb min_length (length path))) [
    | inl long ↦ rw long ((node, last, w, ground arith, short), tt)
    | inr e ↦ rw e tt
  ]

  hops-IsChain :
      (rec : String → Chain → ℕ → Option (List Chain)) (path : Chain) (last : ℕ)
      (es : List GraphEdge) {r : List Chain}
      → All
          (λ (e : GraphEdge).
            skips window path last e ≡ false
            → (r' : List Chain) → rec e.dst_id (path ++ e.dst_id ∷ []) e.ts_ms ≡ some r'
            → All IsChain r')
          es
      → hops rec window path last es ≡ some r
      → All IsChain r
  unfolding hops
  hops-IsChain rec path last [] h eq = subst (All IsChain) (some_eq eq) tt
  hops-IsChain rec path last (e ∷ es) {r} h eq = elim (Bool-cases (skips window path last e)) [
    | inl s ↦ hops-IsChain rec path last es h.1 (sym (hops_skip rec window path last e es s) ∙ eq)
    | inr s ↦
        let parts = both-eq_some _ _ (sym (hops_take rec window path last e es s) ∙ eq) in
        subst (All IsChain) parts.4 (
          All-append IsChain parts.0 parts.1 (h.0 s parts.0 parts.2)
            (hops-IsChain rec path last es h.1 parts.3))
  ]

  pub go-IsChain :
      (fuel : ℕ) (node : String) (path : Chain) (last : ℕ) {r : List Chain}
      → Walk (UnderNode by_src) window start node path last
      → length path ≤ max_length
      → go by_src min_length max_length window fuel node path last ≡ some r
      → All IsChain r
  unfolding go
  go-IsChain zero node path last w short eq = cc
  go-IsChain (suc fuel) node path last {r} w short eq =
      elim (Bool-cases (leb max_length (length path))) [
        | inl full ↦
            subst (All IsChain)
              (some_eq
                (sym (go_full by_src min_length max_length window fuel node path last full) ∙ eq))
              (emit-IsChain node path last w short)
        | inr room ↦
            let parts =
              both-eq_some (some (emit min_length path)) _
                (sym (go_room by_src min_length max_length window fuel node path last room) ∙ eq) in
            subst (All IsChain) parts.4 (
              All-append IsChain parts.0 parts.1
                (subst (All IsChain) (some_eq parts.2) (emit-IsChain node path last w short))
                (hops-IsChain _ path last _
                  (All-of_Mem _ (find ◌==◌ node by_src) (λ e m s r' eq'.
                    let ok = skips-InTime window path last e s in
                    go-IsChain fuel e.dst_id (path ++ e.dst_id ∷ []) e.ts_ms
                      (Walk.hop w e m ok.0 ok.1) (ground (arith, length-snoc path e.dst_id)) eq'))
                  parts.3))
      ]
