-- ===== src/AgentFraud/Splits.antt =====
-- Which split transactions are reported, for `detect_split_txn` of
-- services/brain-agent-fraud/src/brain_agent_fraud/detectors.py.
use mathlib.Core.List.{Memᴰ}
use mathlib.Core.List.Memᴰ
use fraudnet.Prelude.{
  ℕ, ◌≤◌, ◌≡◌, ◌∙◌, ◌⊎◌, refl, sym, ap, subst, String, true, false, ◌&&◌, Option, none, some, List,
  [], ◌∷◌, ◌==◌, arith, if◌then◌else◌, Bool-cases, inl, inr, length, filter, ltb,
}
use fraudnet.Prelude.Groups.{Groups, find}
use fraudnet.Schemas.{int}
use fraudnet.AgentFraud.State.{AgentTxn}
use fraudnet.AgentFraud.Detectors.{
  Detection, Best, no_best, by_counterparty, is_piece, is_split, total, best_split, split_of,
  detect_split_txn,
}
use fraudnet.AgentFraud.Counterparties.{
  deals, find-by_counterparty, by_counterparty-HasKeysOnce, entry-find, find-entry,
}

module _ (threshold min_pieces : ℕ) where
  abbrev chosen : String → List AgentTxn → Best
  chosen cp ts = record { pieces = length ts; total_minor = total ts; counterparty = some cp }

  -- Where the best comes from: the start of the loop, or a group that counts.
  abbrev From : Groups String AgentTxn → Best → Best → Type 0
  From d best best' =
      (best' ≡ best)
      ⊎ ((cp : String) × (ts : List AgentTxn) × Memᴰ (cp, ts) d
          × (is_split threshold min_pieces ts ≡ true)
          × (best' ≡ chosen cp ts))

  -- One round of the loop
  abbrev step : Best → String → List AgentTxn → Best
  step best cp ts =
      if is_split threshold min_pieces ts && ltb best.pieces (length ts) then chosen cp ts else best

  best_split-From :
      (best : Best) (d : Groups String AgentTxn)
      → From d best (best_split threshold min_pieces best d)
  unfolding best_split
  best_split-From best [] = inl refl
  best_split-From best ((cp, ts) ∷ d) =
      passed (Bool-cases (is_split threshold min_pieces ts && ltb best.pieces (length ts)))
        (best_split-From (step best cp ts) d)
    where
      passed :
          (is_split threshold min_pieces ts && ltb best.pieces (length ts) ≡ true)
            ⊎ (is_split threshold min_pieces ts && ltb best.pieces (length ts) ≡ false)
          → From d (step best cp ts) (best_split threshold min_pieces (step best cp ts) d)
          → From ((cp, ts) ∷ d) best (best_split threshold min_pieces (step best cp ts) d)
      passed c (inr (k, us, m, s, e)) = inr (k, us, Memᴰ.tail m, s, e)
      passed (inl c) (inl e) = inr (
        cp,
        ts,
        Memᴰ.head refl,
        ground (arith, c),
        e ∙ ap (λ b. if b then chosen cp ts else best) c,
      )
      passed (inr c) (inl e) = inl (e ∙ ap (λ b. if b then chosen cp ts else best) c)

  best_split-ge :
      (best : Best) (d : Groups String AgentTxn)
      → best.pieces ≤ (best_split threshold min_pieces best d).pieces
  unfolding best_split
  best_split-ge best [] = omega arith
  best_split-ge best ((cp, ts) ∷ d) = ground (arith, best_split-ge (step best cp ts) d)

  best_split-most :
      (best : Best) (d : Groups String AgentTxn) {cp : String} {ts : List AgentTxn}
      → Memᴰ (cp, ts) d
      → is_split threshold min_pieces ts ≡ true
      → length ts ≤ (best_split threshold min_pieces best d).pieces
  unfolding best_split
  best_split-most best [] m s = absurd (Memᴰ.not-nil m)
  best_split-most best ((k, us) ∷ d) {cp} {ts} (Memᴰ.head e) s = omega (
    arith,
    ap (λ (g : String × List AgentTxn). length g.1) e,
    rises (subst (λ (g : String × List AgentTxn). is_split threshold min_pieces g.1 ≡ true) e s),
    best_split-ge (step best k us) d,
  )
    where
      rises : is_split threshold min_pieces us ≡ true → length us ≤ (step best k us).pieces
      rises c = ground arith
  best_split-most best ((k, us) ∷ d) (Memᴰ.tail m) s = best_split-most (step best k us) d m s

-- The small payments to a counterparty
abbrev pub pieces_of : ℕ → String → List AgentTxn → List AgentTxn
pieces_of max_piece cp txns = filter (deals (is_piece max_piece) cp) txns

module _ (txns : List AgentTxn) (threshold max_piece min_pieces : ℕ) where
  -- What the detector says: that no counterparty's pieces count, or one of those with the most
  -- pieces whose pieces do.
  abbrev pub Reports : Option Detection → Type 0
  Reports none = (cp : String) → is_split threshold min_pieces (pieces_of max_piece cp txns) ≡ false
  Reports (some d) =
      (cp : String) × (is_split threshold min_pieces (pieces_of max_piece cp txns) ≡ true)
      × ((other : String)
          → is_split threshold min_pieces (pieces_of max_piece other txns) ≡ true
          → length (pieces_of max_piece other txns) ≤ length (pieces_of max_piece cp txns))
      × (d.evidence
          ≡ ("pieces", int (length (pieces_of max_piece cp txns)))
            ∷ ("total_minor", int (total (pieces_of max_piece cp txns)))
            ∷ ("threshold_minor", int threshold)
            ∷ ("max_piece_minor", int max_piece)
            ∷ [])

  abbrev groups : Groups String AgentTxn
  groups = by_counterparty (is_piece max_piece) txns []

  abbrev best : Best
  best = best_split threshold min_pieces no_best groups

  found : (cp : String) → find ◌==◌ cp groups ≡ pieces_of max_piece cp txns
  found cp = find-by_counterparty (is_piece max_piece) cp txns []

  most :
      1 ≤ min_pieces
      → (cp : String) → is_split threshold min_pieces (pieces_of max_piece cp txns) ≡ true
      → (min_pieces ≤ length (pieces_of max_piece cp txns))
        × (length (pieces_of max_piece cp txns) ≤ best.pieces)
  most some_piece cp split = elim (find-entry cp groups) [
    | inl e ↦
        let nothing : length (pieces_of max_piece cp txns) ≡ 0 = ap length (sym (found cp) ∙ e) in
        absurd (ground (arith, nothing, split))
    | inr m ↦ (
      ground (arith, split),
      best_split-most threshold min_pieces no_best groups
          (subst (λ ts. Memᴰ (cp, ts) groups) (found cp) m) split,
    )
  ]

  reports :
      1 ≤ min_pieces
      → (o : Option String) → best.counterparty ≡ o
      → From threshold min_pieces groups no_best best
      → Reports (split_of threshold max_piece min_pieces best o)
  unfolding split_of
  reports some_piece none e (inl start) = λ cp.
      elim (Bool-cases (is_split threshold min_pieces (pieces_of max_piece cp txns))) [
        | inl split ↦
            absurd (
              omega
                (arith, most some_piece cp split, ap (λ (b : Best). b.pieces) start, some_piece))
        | inr plain ↦ plain
      ]
  reports some_piece none e (inr (k, us, m, s, chose)) =
      λ cp. absurd (cc (sym e ∙ ap (λ (b : Best). b.counterparty) chose))
  reports some_piece (some cp) e (inl start) =
      absurd (cc (sym e ∙ ap (λ (b : Best). b.counterparty) start))
  reports some_piece (some cp) e (inr (k, us, m, s, chose)) =
      let own : us ≡ pieces_of max_piece k txns =
        sym (entry-find k groups (by_counterparty-HasKeysOnce (is_piece max_piece) txns [] tt) m)
        ∙ found k in
      (
        k,
        subst (λ ts. is_split threshold min_pieces ts ≡ true) own s,
        λ other split. omega (
          arith,
          most some_piece other split,
          ap (λ (b : Best). b.pieces) chose,
          ap (λ (ts : List AgentTxn). length ts) own,
        ),
        λ i.
            ("pieces", int ((ap (λ (b : Best). b.pieces) chose ∙ ap length own) i))
            ∷ ("total_minor", int ((ap (λ (b : Best). b.total_minor) chose ∙ ap total own) i))
            ∷ ("threshold_minor", int threshold)
            ∷ ("max_piece_minor", int max_piece)
            ∷ [],
      )

  -- With at least one piece asked for: the detector reports nothing just where no counterparty has
  -- that many cash-outs and transfers, each below the largest piece, that sum up to the threshold;
  -- otherwise its evidence counts and sums those of a counterparty that has, and no other that has
  -- them has more.
  pub detect_split_txn-Reports :
      1 ≤ min_pieces → Reports (detect_split_txn txns threshold max_piece min_pieces)
  unfolding detect_split_txn
  detect_split_txn-Reports some_piece =
      reports some_piece best.counterparty refl
        (best_split-From threshold min_pieces no_best groups)
