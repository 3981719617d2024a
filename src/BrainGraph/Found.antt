-- ===== src/BrainGraph/Found.antt =====
-- Which walks `detect_mule_chains` finds, and that it ends
-- (services/brain-graph/src/brain_graph/motifs.py).
use mathlib.Core.List.{Memᴰ}
use mathlib.Core.List.Memᴰ
use fraudnet.Prelude.{
  ℕ, zero, suc, ◌+◌, ◌≤◌, ◌<◌, ◌≡◌, ◌∙◌, refl, sym, subst, String, true, false, Option, some, List,
  [], ◌∷◌, ◌++◌, arith, Bool-cases, inl, inr, leb, length, All, some_eq,
}
use fraudnet.Prelude.Members.{sort_by-Mem, All-sort_by}
use fraudnet.Prelude.Groups.{Groups}
use fraudnet.BrainGraph.Subgraph.{GraphEdge}
use fraudnet.BrainGraph.Chains.{Chain, skips, hops, emit, go, walk_chains, keep_chains, sort_by_len}
use fraudnet.BrainGraph.Walks.{
  Walk, UnderNode, InTime-skips, length-snoc, both-eq_some, hops_skip, hops_take, go_full, go_room,
  go_total,
}
use fraudnet.BrainGraph.Mules.{IsChain, go-IsChain}
use fraudnet.BrainGraph.Kept.{keep_chains-All, keep_chains-sort_by_len}

abbrev Within : List Chain → List Chain → Type 0
Within r' r = (c : Chain) → Memᴰ c r' → Memᴰ c r

hops_found :
    (rec : String → Chain → ℕ → Option (List Chain)) (window : ℕ) (path : Chain) (last : ℕ)
    (es : List GraphEdge) (e : GraphEdge) {r : List Chain}
    → Memᴰ e es
    → skips window path last e ≡ false
    → hops rec window path last es ≡ some r
    → (r' : List Chain) × (rec e.dst_id (path ++ e.dst_id ∷ []) e.ts_ms ≡ some r') × Within r' r
hops_found rec window path last [] e m s eq = absurd (Memᴰ.not-nil m)
hops_found rec window path last (d ∷ ds) e {r} (Memᴰ.head same) s eq =
    let parts = both-eq_some _ _ (
      sym
        (hops_take rec window path last d ds (subst (λ x. skips window path last x ≡ false) same s))
      ∙ eq) in
    (
      parts.0,
      subst (λ x. rec x.dst_id (path ++ x.dst_id ∷ []) x.ts_ms ≡ some parts.0) (sym same) parts.2,
      λ c m. subst (Memᴰ c) parts.4 (Memᴰ.append_left parts.1 m),
    )
hops_found rec window path last (d ∷ ds) e {r} (Memᴰ.tail m) s eq =
    elim (Bool-cases (skips window path last d)) [
      | inl k ↦
          hops_found rec window path last ds e m s
            (sym (hops_skip rec window path last d ds k) ∙ eq)
      | inr k ↦
          let parts = both-eq_some _ _ (sym (hops_take rec window path last d ds k) ∙ eq) in
          let below = hops_found rec window path last ds e m s parts.3 in
          (
            below.0,
            below.1,
            λ c m'. subst (Memᴰ c) parts.4 (Memᴰ.append_right parts.0 (below.2 c m')),
          )
    ]

module _ (by_src : Groups String GraphEdge) (min_length max_length window : ℕ) where
  -- A run of `go` that the search makes on its way.
  Visited : List Chain → String → Chain → ℕ → Type 0
  Visited r node path last =
      (fuel : ℕ) × (r' : List Chain) × (max_length < fuel + length path)
      × (go by_src min_length max_length window fuel node path last ≡ some r')
      × Within r' r

  go_visits :
      (start : String) {node : String} {path : Chain} {last : ℕ} {r : List Chain}
      → Walk (UnderNode by_src) window start node path last
      → length path ≤ max_length
      → go by_src min_length max_length window (suc max_length) start (start ∷ []) 0 ≡ some r
      → Visited r node path last
  unfolding Visited
  go_visits start {r} Walk.here short eq = (suc max_length, r, omega arith, eq, λ c m. m)
  go_visits start {r} (Walk.hop {node} {path} {last} w e h new time) short eq =
      onward (go_visits start w (omega (arith, length-snoc path e.dst_id)) eq)
    where
      onward : Visited r node path last → Visited r e.dst_id (path ++ e.dst_id ∷ []) e.ts_ms
      onward (zero, r', enough, ran, within) = absurd (omega (arith, length-snoc path e.dst_id))
      onward (suc fuel, r', enough, ran, within) =
          let parts = both-eq_some (some (emit min_length path)) _ (
            sym (
              go_room by_src min_length max_length window fuel node path last
                (ground (arith, length-snoc path e.dst_id)))
            ∙ ran) in
          let next =
            hops_found _ window path last _ e h (InTime-skips window path last e new time)
              parts.3 in
          (
            fuel,
            next.0,
            omega (arith, length-snoc path e.dst_id),
            next.1,
            λ c m. within c (subst (Memᴰ c) parts.4 (Memᴰ.append_right parts.0 (next.2 c m))),
          )

  emit-Mem : (path : Chain) → min_length ≤ length path → Memᴰ path (emit min_length path)
  emit-Mem path long =
      rw (let e : leb min_length (length path) ≡ true = ground arith in e) (Memᴰ.head refl)

  go_emits :
      (fuel : ℕ) (node : String) (path : Chain) (last : ℕ) {r : List Chain}
      → min_length ≤ length path
      → go by_src min_length max_length window fuel node path last ≡ some r
      → Memᴰ path r
  unfolding go
  go_emits zero node path last long eq = cc
  go_emits (suc fuel) node path last long eq = elim (Bool-cases (leb max_length (length path))) [
    | inl full ↦
        subst (Memᴰ path)
          (some_eq
            (sym (go_full by_src min_length max_length window fuel node path last full) ∙ eq))
          (emit-Mem path long)
    | inr room ↦
        let parts =
          both-eq_some (some (emit min_length path)) _
            (sym (go_room by_src min_length max_length window fuel node path last room) ∙ eq) in
        subst (Memᴰ path) parts.4
          (Memᴰ.append_left parts.1 (subst (Memᴰ path) (some_eq parts.2) (emit-Mem path long)))
  ]

  -- With its fuel the search has an answer, which the filter then sorts and thins.
  searched :
      (start : String)
      → (out : List Chain) × (go by_src min_length max_length window
            (suc max_length)
            start
            (start ∷ [])
            0
          ≡ some out)
        × (walk_chains by_src min_length max_length window start
            ≡ some (keep_chains [] (sort_by_len out)))
  unfolding walk_chains
  searched start =
      let run =
        go_total by_src min_length max_length window (suc max_length) start (start ∷ []) 0
          (omega arith) (omega arith) in
      (run.0, run.1, rw (run.1, walk_chains) refl)

  pub walk_chains_total :
      (start : String)
      → (chains : List Chain) × (walk_chains by_src min_length max_length window start
          ≡ some chains)
  walk_chains_total start = let s = searched start in (keep_chains [] (sort_by_len s.0), s.2)

  pub walk_chains-IsChain :
      (start : String) {chains : List Chain}
      → 1 ≤ max_length
      → walk_chains by_src min_length max_length window start ≡ some chains
      → All (IsChain by_src min_length max_length window start) chains
  walk_chains-IsChain start some_room eq =
      let parts = searched start in
      subst (All (IsChain by_src min_length max_length window start)) (some_eq (sym parts.2 ∙ eq)) (
        keep_chains-All _ [] (sort_by_len parts.0) tt (
          All-sort_by _ _ parts.0 (
            go-IsChain by_src min_length max_length window start (suc max_length) start (start ∷ [])
              0 Walk.here some_room parts.1)))

  pub walk_chains_complete :
      (start : String) {node : String} {path : Chain} {last : ℕ} {chains : List Chain}
      → Walk (UnderNode by_src) window start node path last
      → min_length ≤ length path
      → length path ≤ max_length
      → walk_chains by_src min_length max_length window start ≡ some chains
      → Memᴰ path chains
  unfolding Visited
  walk_chains_complete start {node} {path} {last} w long short eq =
      let parts = searched start in
      let run = go_visits start w short parts.1 in
      subst (Memᴰ path) (some_eq (sym parts.2 ∙ eq)) (
        keep_chains-sort_by_len parts.0
          (sort_by-Mem _ parts.0 (run.4 path (go_emits run.0 node path last long run.3))))
