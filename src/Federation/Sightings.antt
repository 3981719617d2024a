-- ===== src/Federation/Sightings.antt =====
-- What a merged node says of the sightings of its hash
-- (packages/federation/src/fraudnet/federation/merge.py).
use fraudnet.Prelude.{
  ℕ, ◌≡◌, ◌∙◌, refl, sym, String, true, false, Option, none, some, List, [], arith, ◌≤◌, ◌↔◌,
  some_eq, Option-cases, inl, inr,
}
use fraudnet.Prelude.Dict
use fraudnet.Prelude.Dict.{Dict, lookup-insert}
use fraudnet.Prelude.StringSet
use fraudnet.Prelude.StringSet.{member-add}
use fraudnet.Federation.Merge.{RemoteNode, RemoteSubgraph, MergedNode, record_all, sightings}
use fraudnet.Federation.Operators.{Saw, Mem-sightings}
use fraudnet.Federation.Scores.{top_score, saw, top_score-bound, top_score-from, saw-Mem}
use fraudnet.Federation.Entries.{Sums, record_all-Sums}

-- The score is the largest of those that the operators gave the hash, none where none gave one.
abbrev pub IsTop : List RemoteNode → List RemoteSubgraph → String → Option ℕ → Type 0
IsTop local peers h none =
    (node : RemoteNode) (opco : String)
    → Saw local peers node opco
    → node.identifier_hash ≡ h
    → node.risk_score ≡ none
IsTop local peers h (some t) =
    ((node : RemoteNode) × (opco : String) × Saw local peers node opco
      × (node.identifier_hash ≡ h)
      × (node.risk_score ≡ some t))
    × ((node : RemoteNode) (opco : String) (x : ℕ)
        → Saw local peers node opco
        → node.identifier_hash ≡ h
        → node.risk_score ≡ some x
        → x ≤ t)

-- What an entry of a hash says, without one: that no operator saw the hash
abbrev pub Describes : List RemoteNode → List RemoteSubgraph → String → Option MergedNode → Type 0
Describes local peers h none =
    (node : RemoteNode) (opco : String) → Saw local peers node opco → ¬ (node.identifier_hash ≡ h)
Describes local peers h (some m) =
    (m.identifier_hash ≡ h)
    × IsTop local peers h m.risk_score
    × ((opco : String)
        → (StringSet.member opco m.contributors ≡ true)
          ↔ ((node : RemoteNode) × Saw local peers node opco × (node.identifier_hash ≡ h)))

module _ (local : List RemoteNode) (peers : List RemoteSubgraph) (h : String) where
  top_score-IsTop :
      (top : Option ℕ) → top_score h none (sightings local peers) ≡ top → IsTop local peers h top
  top_score-IsTop none e = λ node opco s own. elim (Option-cases node.risk_score) [
    | inl unscored ↦ unscored
    | inr (x, scored) ↦
        let (t, f, l) =
          top_score-bound h none (sightings local peers) node opco x
            ((Mem-sightings local peers node opco).1 s) own scored in
        absurd (cc (sym e ∙ f))
  ]
  top_score-IsTop (some t) e = (
    elim (top_score-from h none (sightings local peers) t e) [
      | inl impossible ↦ absurd (cc impossible)
      | inr (node, opco, m, own, s) ↦
          (node, opco, (Mem-sightings local peers node opco).0 m, own, s)
    ],
    λ node opco x s own scored.
        let (t', f, l) =
          top_score-bound h none (sightings local peers) node opco x
            ((Mem-sightings local peers node opco).1 s) own scored in
        let same = some_eq (sym e ∙ f) in omega (arith, same, l),
  )

  saw-Saw :
      (opco : String)
      → (saw h opco (sightings local peers) ≡ true)
        ↔ ((node : RemoteNode) × Saw local peers node opco × (node.identifier_hash ≡ h))
  saw-Saw opco = (
    λ e.
        let (n, m, own) = (saw-Mem h opco (sightings local peers)).0 e in
        (n, (Mem-sightings local peers n opco).0 m, own),
    λ (n, s, own).
        (saw-Mem h opco (sightings local peers)).1 (n, (Mem-sightings local peers n opco).1 s, own),
  )

  Sums-Describes :
      (entry : Option MergedNode)
      → Sums h entry
          (top_score h none (sightings local peers))
          (λ o. saw h o (sightings local peers))
      → Describes local peers h entry
  Sums-Describes none (t, b) =
      λ node opco s own. cc (sym (b opco) ∙ (saw-Saw opco).1 (node, s, own))
  Sums-Describes (some m) (i, t, b) = (
    i,
    top_score-IsTop m.risk_score (sym t),
    λ opco. (λ e. (saw-Saw opco).0 (sym (b opco) ∙ e), λ k. b opco ∙ (saw-Saw opco).1 k),
  )

-- For every hash: the merge of a local view and of the peers' subgraphs has no node of it only
-- where neither the local view nor a peer has one; otherwise it has one of that hash, whose
-- score is one that was given to the hash and at least each that was, none where none was given,
-- and whose contributors are exactly "local" where the local view has it and the operators of
-- the peers that have it.
pub record_all-sightings :
    (h : String) (local : List RemoteNode) (peers : List RemoteSubgraph)
    → Describes local peers h (Dict.lookup h (record_all [] (sightings local peers)))
unfolding Dict.lookup
record_all-sightings h local peers =
    Sums-Describes local peers h (Dict.lookup h (record_all [] (sightings local peers)))
      (record_all-Sums h (sightings local peers) [] none (λ o. false) (refl, λ o. refl))
