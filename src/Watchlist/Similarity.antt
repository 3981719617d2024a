-- ===== src/Watchlist/Similarity.antt =====
-- `jaro_similarity` and `jaro_winkler` of services/aml-watchlist/src/aml_watchlist/matching.py.
-- A text is the list of its code points, its flags stand beside them, and a float is the
-- fraction that it stands for. The match distance of the source may be -1; `half` is one more.
-- `none` is an IndexError.
use fraudnet.Prelude.{
  ℕ, ◌+◌, ◌-◌, ◌*◌, ◌/◌, max, min, Bool, true, false, not, ◌&&◌, Option, none, some, List, [], ◌∷◌,
  ltb, leb, if◌then◌else◌, length, count, map,
}

pub record Fraction : Type 0 where
  pub num : ℕ
  pub den : ℕ

-- A character with whether it was matched
abbrev pub Flagged : Type 0
Flagged = List (ℕ × Bool)

abbrev pub same : ℕ → ℕ → Bool
same a b = leb a b && leb b a

abbrev pub texts_eq : List ℕ → List ℕ → Bool
texts_eq [] [] = true
texts_eq [] (b ∷ bs) = false
texts_eq (a ∷ as') [] = false
texts_eq (a ∷ as') (b ∷ bs) = same a b && texts_eq as' bs

abbrev pub unmatched : List ℕ → Flagged
unmatched s = map (λ c. (c, false)) s

abbrev pub behind : ℕ × Bool → Option Flagged → Option Flagged
behind d none = none
behind d (some t) = some (d ∷ t)

-- The inner loop: the first free equal character of the second text in the range, from its index `j`
unfoldable pub claim : ℕ → ℕ → ℕ → ℕ → Flagged → Option Flagged
claim c start stop j [] = none
claim c start stop j ((d, taken) ∷ t) =
    let later = behind (d, taken) (claim c start stop (j + 1) t) in
    if leb start j && (ltb j stop && (not taken && same d c)) then some ((d, true) ∷ t) else later

-- The character of the first text, and the second text after its turn
abbrev pub turn : ℕ → Flagged → Option Flagged → (ℕ × Bool) × Flagged
turn c t none = ((c, false), t)
turn c t (some t') = ((c, true), t')

-- The outer loop, from the index `i` of the first text
unfoldable pub match_all : ℕ → ℕ → List ℕ → Flagged → Flagged × Flagged
match_all half i [] t = ([], t)
match_all half i (c ∷ cs) t =
    let here = turn c t (claim c (i + 1 - half) (min (i + half) (length t)) 0 t) in
    let rest = match_all half (i + 1) cs here.1 in (here.0 ∷ rest.0, rest.1)

abbrev pub matches : Flagged → ℕ
matches t = count (λ p. p.1) t

-- `while not s2_matches[k]: k += 1`, and the character there with what follows it
unfoldable pub next_matched : Flagged → Option (ℕ × Flagged)
next_matched [] = none
next_matched ((d, true) ∷ t) = some (d, t)
next_matched ((d, false) ∷ t) = next_matched t

abbrev pub count_if : Bool → Option ℕ → Option ℕ
count_if b none = none
count_if b (some n) = some (if b then n + 1 else n)

-- The loop over the matched characters of both texts that counts those that differ
unfoldable pub differing : Flagged → Flagged → Option ℕ
differing [] t = some 0
differing ((c, false) ∷ s) t = differing s t
differing ((c, true) ∷ s) t = elim (next_matched t) [
  | none ↦ none
  | some (d, rest) ↦ count_if (not (same c d)) (differing s rest)
]

-- (m / n1 + m / n2 + (m - t) / m) / 3
abbrev pub jaro_fraction : ℕ → ℕ → ℕ → ℕ → Fraction
jaro_fraction m n1 n2 t = record {
  num = m * m * n2 + m * m * n1 + (m - t) * n1 * n2;
  den = 3 * (m * n1 * n2);
}

abbrev pub jaro_of : ℕ → ℕ → ℕ → Option ℕ → Option Fraction
jaro_of m n1 n2 none = none
jaro_of m n1 n2 (some d) = some (jaro_fraction m n1 n2 (d / 2))

abbrev pub is_empty : List ℕ → Bool
is_empty [] = true
is_empty (c ∷ cs) = false

abbrev pub scored : ℕ → ℕ → Flagged × Flagged → Option Fraction
scored n1 n2 (s, t) =
    if same (matches s) 0
    then some (record { num = 0; den = 1 })
    else jaro_of (matches s) n1 n2 (differing s t)

unfoldable pub jaro_similarity : List ℕ → List ℕ → Option Fraction
jaro_similarity s1 s2 =
    if texts_eq s1 s2
    then some (record { num = 1; den = 1 })
    else if is_empty s1
    then some (record { num = 0; den = 1 })
    else if is_empty s2
    then some (record { num = 0; den = 1 })
    else scored (length s1) (length s2)
        (match_all (max (length s1) (length s2) / 2) 0 s1 (unmatched s2))

-- The common prefix, of at most `room` characters
unfoldable pub prefix_length : ℕ → List ℕ → List ℕ → ℕ
prefix_length room [] t = 0
prefix_length room (a ∷ s) [] = 0
prefix_length room (a ∷ s) (b ∷ t) =
    let rest = prefix_length (room - 1) s t in
    if not (same a b) then 0 else if leb room 1 then 1 else rest + 1

-- j + p * scale * (1 - j) with the scale 1 / 10
abbrev pub boosted : ℕ → Option Fraction → Option Fraction
boosted p none = none
boosted p (some j) = some (record { num = 10 * j.num + p * (j.den - j.num); den = 10 * j.den })

unfoldable pub jaro_winkler : List ℕ → List ℕ → Option Fraction
jaro_winkler s1 s2 = boosted (prefix_length 4 s1 s2) (jaro_similarity s1 s2)
