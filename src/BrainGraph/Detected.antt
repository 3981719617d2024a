-- ===== src/BrainGraph/Detected.antt =====
-- The chains reported for a snapshot, for `detect_mule_chains` of
-- services/brain-graph/src/brain_graph/motifs.py.
use mathlib.Core.List.{Memᴰ}
use mathlib.Core.List.Memᴰ
use fraudnet.Prelude.{
  ℕ, ◌≤◌, ◌≡◌, ◌∙◌, refl, sym, ap, subst, String, Option, some, List, [], ◌∷◌, ◌++◌, ◌==◌, eq_iff,
  arith, Bool-cases, if◌then◌else◌, inl, inr, length, some_eq, map,
}
use fraudnet.Prelude.Members.{All-Mem, All-of_Mem, sort_by-Mem}
use fraudnet.Prelude.Groups.{Groups, Under, find, group, group-Under, find-Under, group_Mem}
use fraudnet.Schemas.{Primitive}
use fraudnet.BrainGraph.Subgraph.{GraphEdge, Subgraph, MotifMatch, edges_of}
use fraudnet.BrainGraph.Indices.{
  InGraph, edges_of-InGraph, InGraph-edges_of, sort_groups-Under, find-sort_groups,
}
use fraudnet.BrainGraph.Chains.{
  Chain, walk_chains, mule_chains_from, detect_mule_chains, chain_match, sent_by_src,
}
use fraudnet.BrainGraph.Walks.{Walk, Walk-map, Walk-leaves, UnderNode}
use fraudnet.BrainGraph.Mules.{IsChain}
use fraudnet.BrainGraph.Found.{walk_chains_total, walk_chains-IsChain, walk_chains_complete}

-- A payment of the snapshot from a wallet.
abbrev pub Sends : Subgraph → String → GraphEdge → Type 0
Sends sg node e = InGraph sg "SENT" e × (e.src_id ≡ node)

UnderNode-Sends :
    (sg : Subgraph) (node : String) (e : GraphEdge)
    → UnderNode (sent_by_src sg) node e
    → Sends sg node e
UnderNode-Sends sg node e m =
    let own : Under (λ k e. Memᴰ e (edges_of sg "SENT") × (e.src_id ≡ k)) (sent_by_src sg) =
      sort_groups-Under _ _ (
        group-Under ◌==◌ eq_iff (λ k e. Memᴰ e (edges_of sg "SENT") × (e.src_id ≡ k))
          (λ e. e.src_id) (λ e. e) (edges_of sg "SENT") [] (All-of_Mem _ _ (λ e m. (m, refl)))
          tt) in
    let r = All-Mem _ _ (find-Under ◌==◌ eq_iff _ node (sent_by_src sg) own) m in
    (edges_of-InGraph sg "SENT" r.0, r.1)

Sends-UnderNode :
    (sg : Subgraph) (node : String) (e : GraphEdge)
    → Sends sg node e
    → UnderNode (sent_by_src sg) node e
Sends-UnderNode sg node e (m, own) =
    subst (λ n. Memᴰ e (find ◌==◌ n (sent_by_src sg))) own
      (rw
        (find-sort_groups ◌==◌ e.src_id
          (group ◌==◌ (λ e. e.src_id) (λ e. e) (edges_of sg "SENT") []))
        (sort_by-Mem _ _ (
          group_Mem ◌==◌ eq_iff (λ e. e.src_id) (λ e. e) (edges_of sg "SENT") []
            (InGraph-edges_of sg "SENT" m))))

-- A key with an entry.
find_key :
    (k : String) (d : Groups String GraphEdge) {e : GraphEdge}
    → Memᴰ e (find ◌==◌ k d)
    → (es : List GraphEdge) × Memᴰ (k, es) d
find_key k [] m = absurd (Memᴰ.not-nil m)
find_key k ((j, es) ∷ d) {e} m = elim (Bool-cases (j == k)) [
  | inl own ↦ (es, Memᴰ.head (λ i. (sym ((eq_iff j k).0 own) i, es)))
  | inr other ↦
      let below = find_key k d (subst (λ b. Memᴰ e (if b then es else find ◌==◌ k d)) other m) in
      (below.0, Memᴰ.tail below.1)
]

module _ (int_of : Option Primitive → ℕ) (by_src : Groups String GraphEdge)
    (min_length max_length window : ℕ) where
  -- A match of a chain that the search from a key finds.
  abbrev FromKey : Groups String GraphEdge → MotifMatch → Type 0
  FromKey d m =
      (start : String) × (es : List GraphEdge) × (chains : List Chain) × (c : Chain) × Memᴰ
        (start, es) d
      × (walk_chains by_src min_length max_length window start ≡ some chains)
      × Memᴰ c chains
      × (chain_match int_of by_src min_length c ≡ m)

  -- The matches over the keys, each from a key, and from each key each of its chains.
  from_keys :
      (d : Groups String GraphEdge)
      → (ms : List MotifMatch) × (mule_chains_from int_of by_src min_length max_length window d
          ≡ some ms)
        × ((m : MotifMatch) → Memᴰ m ms → FromKey d m)
        × ((m : MotifMatch) → FromKey d m → Memᴰ m ms)
  unfolding mule_chains_from
  from_keys [] = ([], refl, λ m i. absurd (Memᴰ.not-nil i), λ m f. absurd (Memᴰ.not-nil f.4))
  from_keys ((start, es) ∷ d) =
      let later = from_keys d in
      let here = walk_chains_total by_src min_length max_length window start in
      (
        map (chain_match int_of by_src min_length) here.0 ++ later.0,
        rw (here.1, later.1, mule_chains_from) refl,
        λ m i. elim (Memᴰ.append_cases (map (chain_match int_of by_src min_length) here.0) i) [
          | inl own ↦
              let r = Memᴰ.of_map (chain_match int_of by_src min_length) here.0 own in
              (start, es, here.0, r.0, Memᴰ.head refl, here.1, r.1, r.2)
          | inr other ↦
              let f = later.2 m other in (f.0, f.1, f.2, f.3, Memᴰ.tail f.4, f.5, f.6, f.7)
        ],
        λ m f. elim (Memᴰ.cases_cons f.4) [
          | inl own ↦ Memᴰ.append_left later.0 (
              Memᴰ.cast (sym f.7) (
                Memᴰ.map (chain_match int_of by_src min_length)
                  (subst (Memᴰ f.3) (some_eq (sym f.5 ∙ (ap (λ k. walk k.0) own ∙ here.1))) f.6)))
          | inr other ↦
              Memᴰ.append_right (map (chain_match int_of by_src min_length) here.0)
                (later.3 m (f.0, f.1, f.2, f.3, other, f.5, f.6, f.7))
        ],
      )
    where
      walk : String → Option (List Chain)
      walk = walk_chains by_src min_length max_length window

-- A match of a walk along payments of the snapshot, of an allowed number of wallets.
abbrev pub IsMule : Subgraph → ℕ → ℕ → ℕ → MotifMatch → Type 0
IsMule sg min_length max_length window m =
    (start : String) × (node : String) × (c : Chain) × (last : ℕ) × Walk (Sends sg) window start
      node c last
    × (min_length ≤ length c)
    × (length c ≤ max_length)
    × (m.members ≡ map (λ w. ("Wallet", w)) c)

module _ (int_of : Option Primitive → ℕ) (sg : Subgraph) (min_length max_length window : ℕ) where
  -- For every snapshot and all limits, the depth-first search behind the chains ends with an answer:
  -- the fuel of one more than the largest length is never used up.
  pub detect_mule_chains_total :
      (ms : List MotifMatch) × (detect_mule_chains int_of sg min_length max_length window ≡ some ms)
  unfolding detect_mule_chains
  detect_mule_chains_total =
      let r = from_keys int_of (sent_by_src sg) min_length max_length window (sent_by_src sg) in
      (r.0, r.1)

  -- With a largest length of at least 1, the members of every match are the wallets of a walk along
  -- payments of the snapshot: no wallet comes twice, each payment is no earlier than the one before
  -- it and at most the window later (unless that one has the time 0), and the number of wallets is
  -- within the limits.
  pub detect_mule_chains-IsMule :
      (ms : List MotifMatch) {m : MotifMatch}
      → 1 ≤ max_length
      → detect_mule_chains int_of sg min_length max_length window ≡ some ms
      → Memᴰ m ms
      → IsMule sg min_length max_length window m
  unfolding detect_mule_chains
  detect_mule_chains-IsMule ms {m} room eq i =
      let r = from_keys int_of (sent_by_src sg) min_length max_length window (sent_by_src sg) in
      let f = r.2 m (subst (Memᴰ m) (some_eq (sym eq ∙ r.1)) i) in
      let c =
        All-Mem (IsChain (sent_by_src sg) min_length max_length window f.0) f.2
          (walk_chains-IsChain (sent_by_src sg) min_length max_length window f.0 room f.5) f.6 in
      (
        f.0,
        c.0,
        f.3,
        c.1,
        Walk-map (UnderNode (sent_by_src sg)) (Sends sg) (UnderNode-Sends sg) window f.0 c.2,
        c.3,
        c.4,
        ap (λ (x : MotifMatch). x.members) (sym f.7),
      )

  -- Every such walk of at least two wallets, within the limits, is the members of a match,
  -- also where another match goes on from its end.
  pub detect_mule_chains_complete :
      (start : String) {node : String} (c : Chain) {last : ℕ} (ms : List MotifMatch)
      → Walk (Sends sg) window start node c last
      → 2 ≤ length c
      → min_length ≤ length c
      → length c ≤ max_length
      → detect_mule_chains int_of sg min_length max_length window ≡ some ms
      → (m : MotifMatch) × Memᴰ m ms × (m.members ≡ map (λ w. ("Wallet", w)) c)
  unfolding detect_mule_chains
  detect_mule_chains_complete start {node} c {last} ms w two long short eq =
      elim (Walk-leaves window start w) [
        | inl alone ↦ absurd (omega (arith, alone.1))
        | inr (e, leaves) ↦
            let r =
              from_keys int_of (sent_by_src sg) min_length max_length window (sent_by_src sg) in
            let key = find_key start (sent_by_src sg) (Sends-UnderNode sg start e leaves) in
            let found = walk_chains_total (sent_by_src sg) min_length max_length window start in
            let chain =
              walk_chains_complete (sent_by_src sg) min_length max_length window start
                (Walk-map (Sends sg) (UnderNode (sent_by_src sg)) (Sends-UnderNode sg) window start
                  w)
                long short found.1 in
            (
              chain_match int_of (sent_by_src sg) min_length c,
              subst (Memᴰ _) (some_eq (sym r.1 ∙ eq))
                  (r.3 _ (start, key.0, found.0, c, key.1, found.1, chain, refl)),
              refl,
            )
      ]
