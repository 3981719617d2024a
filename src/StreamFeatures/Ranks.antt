-- ===== src/StreamFeatures/Ranks.antt =====
-- The 95th percentile of a wallet's amounts as a rank among them
-- (services/stream-features/src/stream_features/pipeline.py).
use fraudnet.Prelude.{
  ℕ, zero, suc, ◌+◌, ◌-◌, ◌*◌, ◌/◌, ◌≤◌, ◌<◌, ◌≡◌, refl, ap, ◌∙◌, inl, inr, Bool, List, [], ◌∷◌,
  All, length, count, arith, leb, Bool-cases,
}
use fraudnet.StreamFeatures.State.{place, sorted, nth, p95}

IsSorted : List ℕ → Type 0
IsSorted [] = Unit
IsSorted (a ∷ bs) = All (λ b. a ≤ b) bs × IsSorted bs

count-place : (p : ℕ → Bool) (a : ℕ) (bs : List ℕ) → count p (place a bs) ≡ count p (a ∷ bs)
count-place p a [] = refl
count-place p a (b ∷ bs) = ground (arith, count-place p a bs)

count-sorted : (p : ℕ → Bool) (xs : List ℕ) → count p (sorted xs) ≡ count p xs
count-sorted p [] = refl
count-sorted p (a ∷ xs) = count-place p a (sorted xs) ∙ ground (arith, count-sorted p xs)

length-place : (a : ℕ) (bs : List ℕ) → length (place a bs) ≡ suc (length bs)
length-place a [] = refl
length-place a (b ∷ bs) = ground (arith, length-place a bs)

length-sorted : (xs : List ℕ) → length (sorted xs) ≡ length xs
length-sorted [] = refl
length-sorted (a ∷ xs) = length-place a (sorted xs) ∙ ap suc (length-sorted xs)

All-place : (c a : ℕ) (bs : List ℕ) → c ≤ a → All (λ b. c ≤ b) bs → All (λ b. c ≤ b) (place a bs)
All-place c a [] h k = (h, tt)
All-place c a (b ∷ bs) h k = ground (arith, All-place c a bs h k.1)

All-le_of : (c a : ℕ) (bs : List ℕ) → c ≤ a → All (λ b. a ≤ b) bs → All (λ b. c ≤ b) bs
All-le_of c a [] h k = tt
All-le_of c a (b ∷ bs) h k = (omega arith, All-le_of c a bs h k.1)

place-IsSorted : (a : ℕ) (bs : List ℕ) → IsSorted bs → IsSorted (place a bs)
unfolding IsSorted
place-IsSorted a [] h = (tt, tt)
place-IsSorted a (b ∷ bs) h = elim (Bool-cases (leb a b)) [
  | inl before ↦ rw before ((ground arith, All-le_of a b bs (ground arith) h.0), h)
  | inr after ↦ rw after (All-place b a bs (ground arith) h.0, place-IsSorted a bs h.1)
]

sorted-IsSorted : (xs : List ℕ) → IsSorted (sorted xs)
unfolding IsSorted
sorted-IsSorted [] = tt
sorted-IsSorted (a ∷ xs) = place-IsSorted a (sorted xs) (sorted-IsSorted xs)

-- Every entry of a list is at least `c`: so is each that is read.
nth-ge : (c : ℕ) (s : List ℕ) (i : ℕ) → All (λ b. c ≤ b) s → i < length s → c ≤ nth s i
nth-ge c [] i h lt = absurd (omega arith)
nth-ge c (b ∷ s) zero h lt = h.0
nth-ge c (b ∷ s) (suc i) h lt = nth-ge c s i h.1 (omega arith)

count_eq_length : (c : ℕ) (s : List ℕ) → All (λ b. c ≤ b) s → count (λ b. leb c b) s ≡ length s
count_eq_length c [] h = refl
count_eq_length c (b ∷ s) h = ground (arith, count_eq_length c s h.1)

-- In a sorted list `i + 1` entries are at most the one at `i`, and all from `i` on at least it.
rank_below : (s : List ℕ) (i : ℕ) → IsSorted s → i < length s → i < count (λ b. leb b (nth s i)) s
unfolding IsSorted
rank_below [] i h lt = absurd (omega arith)
rank_below (a ∷ s) zero h lt = ground arith
rank_below (a ∷ s) (suc i) h lt =
    ground (arith, rank_below s i h.1 (omega arith), nth-ge a s i h.0 (omega arith))

rank_above :
    (s : List ℕ) (i : ℕ) → IsSorted s → i < length s → length s ≤ count (λ b. leb (nth s i) b) s + i
unfolding IsSorted
rank_above [] i h lt = omega arith
rank_above (a ∷ s) zero h lt = ground (arith, count_eq_length a s h.0)
rank_above (a ∷ s) (suc i) h lt = ground (arith, rank_above s i h.1 (omega arith))

abbrev pub p95_index : ℕ → ℕ
p95_index n = n * 95 / 100 - 1

p95_index-lt : (n : ℕ) → 0 < n → p95_index n < n
p95_index-lt n h = omega arith

-- Of a list that is not empty, with k = max(0, int(0.95 n) - 1): at least k + 1 of the n amounts are
-- at most the percentile, and at least n - k are at least it.
pub p95_rank :
    (xs : List ℕ)
    → 0 < length xs
    → (p95_index (length xs) < count (λ a. leb a (p95 xs)) xs)
      × (length xs ≤ count (λ a. leb (p95 xs) a) xs + p95_index (length xs))
unfolding p95
p95_rank xs h =
    let i = p95_index (length xs) in
    let lt : i < length (sorted xs) = rw length-sorted (p95_index-lt (length xs) h) in
    (
      rw (← count-sorted (λ a. leb a (nth (sorted xs) i)) xs)
          (rank_below (sorted xs) i (sorted-IsSorted xs) lt),
      omega (
        arith,
        count-sorted (λ a. leb (nth (sorted xs) i) a) xs,
        length-sorted xs,
        rank_above (sorted xs) i (sorted-IsSorted xs) lt,
      ),
    )
