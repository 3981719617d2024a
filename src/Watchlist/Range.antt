-- ===== src/Watchlist/Range.antt =====
-- The range of `jaro_winkler` of services/aml-watchlist/src/aml_watchlist/matching.py.
use native.Mathlib.Nat.{mul-le-mul, mul-le-mul_right, mul_right_comm}
use fraudnet.Prelude.{
  ℕ, ◌+◌, ◌-◌, ◌*◌, ◌/◌, ◌≤◌, ◌<◌, ◌≡◌, refl, ap, max, Bool, true, false, Option, some, List, [],
  ◌∷◌, arith, if◌then◌else◌, Bool-cases, inl, inr, length, count-le-length, leb,
}
use fraudnet.Watchlist.Similarity.{
  Fraction, Flagged, same, texts_eq, unmatched, match_all, matches, jaro_fraction, is_empty, scored,
  jaro_similarity, prefix_length, boosted, jaro_winkler,
}
use fraudnet.Watchlist.Flags.{
  Pairs, match_all-Pairs, matches-unmatched, length-unmatched, differing_total,
}

-- A fraction between 0 and 1
abbrev pub IsUnit : Fraction → Type 0
IsUnit f = (0 < f.den) × (f.num ≤ f.den)

mul_mono3 : (a b c x y z : ℕ) → a ≤ x → b ≤ y → c ≤ z → a * b * c ≤ x * y * z
mul_mono3 a b c x y z h k l = mul-le-mul (mul-le-mul h k) l

mul_pos3 : (a b c : ℕ) → 0 < a → 0 < b → 0 < c → 0 < a * b * c
mul_pos3 a b c h k l = grind arith

jaro_fraction-IsUnit : (m n1 n2 t : ℕ) → 0 < m → m ≤ n1 → m ≤ n2 → IsUnit (jaro_fraction m n1 n2 t)
jaro_fraction-IsUnit m n1 n2 t some' h k = (
  omega (arith, mul_pos3 m n1 n2 some' (omega arith) (omega arith)),
  omega (
    arith,
    mul_mono3 m m n2 m n1 n2 (omega arith) h (omega arith),
    mul_mono3 m m n1 m n2 n1 (omega arith) k (omega arith),
    mul_mono3 (m - t) n1 n2 m n1 n2 (omega arith) (omega arith) (omega arith),
    mul_right_comm m n2 n1,
  ),
)

-- An answer between 0 and 1
abbrev pub InRange : Option Fraction → Type 0
InRange o = (f : Fraction) × (o ≡ some f) × IsUnit f

scored-InRange :
    (s1 s2 : List ℕ) (r : Flagged × Flagged)
    → Pairs s1 (unmatched s2) r
    → InRange (scored (length s1) (length s2) r)
scored-InRange s1 s2 (s, t) pairs =
    let even : matches s ≡ matches t = omega (arith, pairs.0, matches-unmatched s2) in
    let run = differing_total s t (omega (arith, even)) in
    elim (Bool-cases (same (matches s) 0)) [
      | inl none' ↦ rw none' (record { num = 0; den = 1 }, refl, (omega arith, omega arith))
      | inr found ↦
          rw (found, run.1)
            (
              jaro_fraction (matches s) (length s1) (length s2) (run.0 / 2),
              refl,
              jaro_fraction-IsUnit (matches s) (length s1) (length s2) (run.0 / 2)
                  (ground (arith, found))
                  (omega (arith, pairs.2, count-le-length (λ (p : ℕ × Bool). p.1) s))
                  (omega (
                    arith,
                    pairs.1,
                    even,
                    length-unmatched s2,
                    count-le-length (λ (p : ℕ × Bool). p.1) t,
                  )),
            )
    ]

one-InRange : InRange (some (record { num = 1; den = 1 }))
one-InRange = (record { num = 1; den = 1 }, refl, (omega arith, omega arith))

zero-InRange : InRange (some (record { num = 0; den = 1 }))
zero-InRange = (record { num = 0; den = 1 }, refl, (omega arith, omega arith))

jaro_similarity-InRange : (s1 s2 : List ℕ) → InRange (jaro_similarity s1 s2)
unfolding jaro_similarity
jaro_similarity-InRange s1 s2 =
    elim (texts_eq s1 s2)
      as (λ b. InRange (
        if b
        then some (record { num = 1; den = 1 })
        else if is_empty s1
        then some (record { num = 0; den = 1 })
        else if is_empty s2
        then some (record { num = 0; den = 1 })
        else scored (length s1) (length s2)
            (match_all (max (length s1) (length s2) / 2) 0 s1 (unmatched s2)))) [
              | true ↦ one-InRange
              | false ↦ differ (is_empty s1) (is_empty s2)
            ]
  where
    differ :
        (a b : Bool)
        → InRange (
            if a
            then some (record { num = 0; den = 1 })
            else if b
            then some (record { num = 0; den = 1 })
            else scored
                (length s1)
                (length s2)
                (match_all (max (length s1) (length s2) / 2) 0 s1 (unmatched s2)))
    differ true b = zero-InRange
    differ false true = zero-InRange
    differ false false =
        scored-InRange s1 s2 _
          (match_all-Pairs (max (length s1) (length s2) / 2) 0 s1 (unmatched s2))

prefix_length-le : (room : ℕ) (s t : List ℕ) → 1 ≤ room → prefix_length room s t ≤ room
unfolding prefix_length
prefix_length-le room [] t h = omega arith
prefix_length-le room (a ∷ s) [] h = omega arith
prefix_length-le room (a ∷ s) (b ∷ t) h = elim (Bool-cases (leb room 1)) [
  | inl last ↦ ground (arith, last)
  | inr more ↦ ground (arith, more, prefix_length-le (room - 1) s t)
]

boosted-IsUnit :
    (p : ℕ) (f : Fraction)
    → p ≤ 10
    → IsUnit f
    → IsUnit (record { num = 10 * f.num + p * (f.den - f.num); den = 10 * f.den })
boosted-IsUnit p f h u =
    (omega (arith, u.0), omega (arith, u.1, mul-le-mul_right (f.den - f.num) h))

-- For every two texts the similarity has a value, with no index out of its range on the way, and the
-- value, boosted by the common prefix, is a fraction of a positive denominator between 0 and 1.
pub jaro_winkler-InRange : (s1 s2 : List ℕ) → InRange (jaro_winkler s1 s2)
unfolding jaro_winkler
jaro_winkler-InRange s1 s2 =
    let j = jaro_similarity-InRange s1 s2 in
    let p = prefix_length 4 s1 s2 in
    (
      record { num = 10 * j.0.num + p * (j.0.den - j.0.num); den = 10 * j.0.den },
      ap (boosted p) j.1,
      boosted-IsUnit p j.0 (omega (arith, prefix_length-le 4 s1 s2 (omega arith))) j.2,
    )
