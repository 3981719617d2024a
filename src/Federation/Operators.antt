-- ===== src/Federation/Operators.antt =====
-- The sightings of packages/federation/src/fraudnet/federation/merge.py, apart from the loops of the
-- merge: who saw which node, and what the scores of a hash are.
use mathlib.Core.List.{Memᴰ}
use mathlib.Core.List.Memᴰ
use fraudnet.Prelude.{◌≡◌, ◌⊎◌, ◌↔◌, refl, sym, ap, subst, String, List, [], ◌∷◌, map, inl, inr}
use fraudnet.Federation.Merge.{RemoteNode, RemoteSubgraph, sightings, peer_sightings}

-- An operator saw a node: its own with the name "local", or a peer.
abbrev pub Saw : List RemoteNode → List RemoteSubgraph → RemoteNode → String → Type 0
Saw local peers node opco =
    (Memᴰ node local × ("local" ≡ opco))
    ⊎ ((g : RemoteSubgraph) × Memᴰ g peers × Memᴰ node g.nodes × (g.opco ≡ opco))

peer_sightings-Saw :
    (peers : List RemoteSubgraph) (node : RemoteNode) (opco : String)
    → Memᴰ (node, opco) (peer_sightings peers)
    → (g : RemoteSubgraph) × Memᴰ g peers × Memᴰ node g.nodes × (g.opco ≡ opco)
peer_sightings-Saw [] node opco m = absurd (Memᴰ.not-nil m)
peer_sightings-Saw (g ∷ gs) node opco m =
    elim (Memᴰ.append_cases (map (λ n. (n, g.opco)) g.nodes) m) [
      | inl here ↦
          let (n, k, e) = Memᴰ.of_map (λ n. (n, g.opco)) g.nodes here in
          (g, Memᴰ.head refl, Memᴰ.cast (sym (ap (λ p. p.0) e)) k, ap (λ p. p.1) e)
      | inr there ↦
          let (h, k, n, e) = peer_sightings-Saw gs node opco there in (h, Memᴰ.tail k, n, e)
    ]

peer_sightings-Mem :
    (peers : List RemoteSubgraph) (g : RemoteSubgraph) (node : RemoteNode)
    → Memᴰ g peers
    → Memᴰ node g.nodes
    → Memᴰ (node, g.opco) (peer_sightings peers)
peer_sightings-Mem [] g node k m = absurd (Memᴰ.not-nil k)
peer_sightings-Mem (h ∷ gs) g node (Memᴰ.head e) m =
    subst (λ x. Memᴰ (node, x.opco) (peer_sightings (h ∷ gs))) (sym e)
      (Memᴰ.append_left (peer_sightings gs)
        (Memᴰ.map (λ n. (n, h.opco)) (subst (λ x. Memᴰ node x.nodes) e m)))
peer_sightings-Mem (h ∷ gs) g node (Memᴰ.tail k) m =
    Memᴰ.append_right (map (λ n. (n, h.opco)) h.nodes) (peer_sightings-Mem gs g node k m)

-- The loops see just the nodes that an operator saw.
pub Mem-sightings :
    (local : List RemoteNode) (peers : List RemoteSubgraph) (node : RemoteNode) (opco : String)
    → Memᴰ (node, opco) (sightings local peers) ↔ Saw local peers node opco
Mem-sightings local peers node opco = (
  λ m. elim (Memᴰ.append_cases (map (λ n. (n, "local")) local) m) [
    | inl here ↦
        let (n, k, e) = Memᴰ.of_map (λ n. (n, "local")) local here in
        inl (Memᴰ.cast (sym (ap (λ p. p.0) e)) k, ap (λ p. p.1) e)
    | inr there ↦ inr (peer_sightings-Saw peers node opco there)
  ],
  elim [
    | inl (m, e) ↦
        subst (λ o. Memᴰ (node, o) (sightings local peers)) e
          (Memᴰ.append_left (peer_sightings peers) (Memᴰ.map (λ n. (n, "local")) m))
    | inr (g, k, m, e) ↦
        subst (λ o. Memᴰ (node, o) (sightings local peers)) e
          (Memᴰ.append_right (map (λ n. (n, "local")) local) (peer_sightings-Mem peers g node k m))
  ],
)
