-- ===== src/Watchlist/Flags.antt =====
-- The flags of the matched characters, for `jaro_similarity` of
-- services/aml-watchlist/src/aml_watchlist/matching.py.
use fraudnet.Prelude.{
  ℕ, ◌+◌, ◌-◌, ◌≤◌, ◌≡◌, ◌∙◌, refl, sym, min, Bool, true, false, not, ◌&&◌, Option, none, some,
  List, [], ◌∷◌, arith, if◌then◌else◌, Bool-cases, inl, inr, length, leb, ltb,
}
use fraudnet.Watchlist.Similarity.{
  Flagged, same, unmatched, behind, claim, turn, match_all, matches, next_matched, differing,
}

-- A claim marks one more character and moves none.
abbrev Claims : Flagged → Option Flagged → Type 0
Claims t none = Unit
Claims t (some t') = (matches t' ≡ matches t + 1) × (length t' ≡ length t)

behind-Claims :
    (d : ℕ × Bool) (t : Flagged) (o : Option Flagged) → Claims t o → Claims (d ∷ t) (behind d o)
behind-Claims d t none h = tt
behind-Claims (d, true) t (some t') h = (omega arith, omega arith)
behind-Claims (d, false) t (some t') h = (omega arith, omega arith)

claim-Claims : (c start stop j : ℕ) (t : Flagged) → Claims t (claim c start stop j t)
unfolding claim
claim-Claims c start stop j [] = tt
claim-Claims c start stop j ((d, true) ∷ t) =
    elim (Bool-cases (leb start j && (ltb j stop && false))) [
      | inl e ↦ absurd (cc (sym e ∙ no_claim (leb start j) (ltb j stop)))
      | inr e ↦ rw e (behind-Claims (d, true) t _ (claim-Claims c start stop (j + 1) t))
    ]
  where
    no_claim : (a b : Bool) → (a && (b && false)) ≡ false
    no_claim true true = refl
    no_claim true false = refl
    no_claim false b = refl
claim-Claims c start stop j ((d, false) ∷ t) =
    elim (Bool-cases (leb start j && (ltb j stop && same d c))) [
      | inl e ↦ rw e (omega arith, refl)
      | inr e ↦ rw e (behind-Claims (d, false) t _ (claim-Claims c start stop (j + 1) t))
    ]

-- As many characters are marked in the first text as are newly marked in the second.
abbrev pub Pairs : List ℕ → Flagged → Flagged × Flagged → Type 0
Pairs cs t r =
    (matches r.1 ≡ matches t + matches r.0) × (length r.1 ≡ length t) × (length r.0 ≡ length cs)

turn-Pairs :
    (c : ℕ) (cs : List ℕ) (t : Flagged) (o : Option Flagged) (rest : Flagged × Flagged)
    → Claims t o
    → Pairs cs (turn c t o).1 rest
    → Pairs (c ∷ cs) t ((turn c t o).0 ∷ rest.0, rest.1)
turn-Pairs c cs t none rest h p = (omega arith, omega arith, omega arith)
turn-Pairs c cs t (some t') rest h p = (omega arith, omega arith, omega arith)

pub match_all-Pairs : (half i : ℕ) (cs : List ℕ) (t : Flagged) → Pairs cs t (match_all half i cs t)
unfolding match_all
match_all-Pairs half i [] t = (omega arith, refl, refl)
match_all-Pairs half i (c ∷ cs) t =
    turn-Pairs c cs t _ _ (claim-Claims c (i + 1 - half) (min (i + half) (length t)) 0 t)
      (match_all-Pairs half (i + 1) cs _)

pub matches-unmatched : (s : List ℕ) → matches (unmatched s) ≡ 0
matches-unmatched [] = refl
matches-unmatched (c ∷ cs) = matches-unmatched cs

pub length-unmatched : (s : List ℕ) → length (unmatched s) ≡ length s
length-unmatched [] = refl
length-unmatched (c ∷ cs) = omega (arith, length-unmatched cs)

next_matched_total :
    (t : Flagged)
    → 1 ≤ matches t
    → (d : ℕ) × (rest : Flagged) × (next_matched t ≡ some (d, rest))
      × (matches t ≡ matches rest + 1)
unfolding next_matched
next_matched_total [] h = absurd (omega arith)
next_matched_total ((d, true) ∷ t) h = (d, t, refl, omega arith)
next_matched_total ((d, false) ∷ t) h = next_matched_total t h

-- With enough marked characters in the second text, the loop finds one for each of the first.
pub differing_total :
    (s t : Flagged) → matches s ≤ matches t → (n : ℕ) × (differing s t ≡ some n) × (n ≤ matches s)
unfolding differing
differing_total [] t h = (0, refl, omega arith)
differing_total ((c, false) ∷ s) t h = differing_total s t h
differing_total ((c, true) ∷ s) t h =
    let next = next_matched_total t (omega arith) in
    let below = differing_total s next.1 (omega arith) in
    (
      if not (same c next.0) then below.0 + 1 else below.0,
      rw (next.2, differing, below.1) refl,
      ground arith,
    )
