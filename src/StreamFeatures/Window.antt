-- ===== src/StreamFeatures/Window.antt =====
-- Lemmas on the deques of the pipeline: what `while q and q[0] < cut: q.popleft()` keeps.
use mathlib.Core.List.{Sublistᴰ}
use fraudnet.Prelude.{
  ℕ, ◌+◌, ◌≤◌, ◌≡◌, refl, ap, Bool, true, false, List, [], ◌∷◌, ◌++◌, map, All, All-append, length,
  filter, drop_while, arith, leb, if◌then◌else◌, Bool-cases, inl, inr,
}
use fraudnet.StreamFeatures.State.{older}

module _ {ℓ} {A : Type ℓ} where
  drop_while-Sublist_left :
      (p : A → Bool) {xs ys : List A} → Sublistᴰ xs ys → Sublistᴰ (drop_while p xs) ys
  drop_while-Sublist_left p Sublistᴰ.slnil = Sublistᴰ.slnil
  drop_while-Sublist_left p (Sublistᴰ.cons d) = Sublistᴰ.cons (drop_while-Sublist_left p d)
  drop_while-Sublist_left p (Sublistᴰ.cons-cons {a = a} {b = b} {l₁ = xs} {l₂ = ys} e d) =
      elim (p a) as (λ t. Sublistᴰ (if t then drop_while p xs else a ∷ xs) (b ∷ ys)) [
        | true ↦ Sublistᴰ.cons (drop_while-Sublist_left p d)
        | false ↦ Sublistᴰ.cons-cons e d
      ]

  -- Dropping the same kind of prefix from a sublist and from its list leaves a sublist.
  pub drop_while-Sublist :
      (p : A → Bool) {xs ys : List A}
      → Sublistᴰ xs ys
      → Sublistᴰ (drop_while p xs) (drop_while p ys)
  drop_while-Sublist p Sublistᴰ.slnil = Sublistᴰ.slnil
  drop_while-Sublist p (Sublistᴰ.cons {a = a} {l₁ = xs} {l₂ = ys} d) =
      elim (p a) as (λ t. Sublistᴰ (drop_while p xs) (if t then drop_while p ys else a ∷ ys)) [
        | true ↦ drop_while-Sublist p d
        | false ↦ Sublistᴰ.cons (drop_while-Sublist_left p d)
      ]
  drop_while-Sublist p (Sublistᴰ.cons-cons {a = a} {b = b} {l₁ = xs} {l₂ = ys} e d) =
      rw (← ap p e)
        (elim (p a)
          as (λ t.
            Sublistᴰ (if t then drop_while p xs else a ∷ xs)
              (if t then drop_while p ys else b ∷ ys)) [
                | true ↦ drop_while-Sublist p d
                | false ↦ Sublistᴰ.cons-cons e d
              ])

  pub length-le_of_Sublist : {xs ys : List A} → Sublistᴰ xs ys → length xs ≤ length ys
  length-le_of_Sublist Sublistᴰ.slnil = omega arith
  length-le_of_Sublist (Sublistᴰ.cons d) = omega (arith, length-le_of_Sublist d)
  length-le_of_Sublist (Sublistᴰ.cons-cons e d) = omega (arith, length-le_of_Sublist d)

  pub map-append_one {κ} :
      {B : Type κ} (f : A → B) (xs : List A) (a : A) → map f (xs ++ a ∷ []) ≡ map f xs ++ f a ∷ []
  map-append_one f [] a = refl
  map-append_one f (x ∷ xs) a = ap (◌∷◌ (f x)) (map-append_one f xs a)

  -- The pairs and their times are pruned in step.
  pub map-drop_while {κ} :
      {B : Type κ} (f : A → B) (p : B → Bool) (xs : List A)
      → map f (drop_while (λ a. p (f a)) xs) ≡ drop_while p (map f xs)
  map-drop_while f p [] = refl
  map-drop_while f p (x ∷ xs) = elim (Bool-cases (p (f x))) [
    | inl old ↦ rw old (map-drop_while f p xs)
    | inr new ↦ rw new refl
  ]

-- No entry stands more than `lag` behind one that came before it.
abbrev pub Staggered : ℕ → List ℕ → Type 0
Staggered lag [] = Unit
Staggered lag (x ∷ xs) = All (λ y. x ≤ y + lag) xs × Staggered lag xs

pub Staggered-drop_while :
    (lag : ℕ) (p : ℕ → Bool) (xs : List ℕ) → Staggered lag xs → Staggered lag (drop_while p xs)
Staggered-drop_while lag p [] h = h
Staggered-drop_while lag p (x ∷ xs) h =
    elim (p x) as (λ t. Staggered lag (if t then drop_while p xs else x ∷ xs)) [
      | true ↦ Staggered-drop_while lag p xs h.1
      | false ↦ h
    ]

pub Staggered-append :
    (lag : ℕ) (xs : List ℕ) (t : ℕ)
    → Staggered lag xs
    → All (λ x. x ≤ t + lag) xs
    → Staggered lag (xs ++ t ∷ [])
Staggered-append lag [] t h a = (tt, tt)
Staggered-append lag (x ∷ xs) t h a =
    (All-append _ xs (t ∷ []) h.0 (a.0, tt), Staggered-append lag xs t h.1 a.1)

fresh_behind :
    (lag w now x : ℕ) (xs : List ℕ)
    → now ≤ x + w
    → All (λ y. x ≤ y + lag) xs
    → All (λ t. now ≤ t + w + lag) xs
fresh_behind lag w now x [] h a = tt
fresh_behind lag w now x (y ∷ ys) h a = (omega arith, fresh_behind lag w now x ys h a.1)

-- What pruning keeps is at most the window and the lag old: a newer head may hide an older entry,
-- and by no more than the lag.
pub All-fresh-drop_while :
    (lag w now : ℕ) (xs : List ℕ)
    → Staggered lag xs
    → All (λ t. now ≤ t + w + lag) (drop_while (older w now) xs)
All-fresh-drop_while lag w now [] h = tt
All-fresh-drop_while lag w now (x ∷ xs) h = elim (Bool-cases (older w now x)) [
  | inl old ↦ rw old (All-fresh-drop_while lag w now xs h.1)
  | inr new ↦ rw new (ground arith, fresh_behind lag w now x xs (ground arith) h.0)
]

kept_behind :
    (w now x : ℕ) (xs : List ℕ)
    → now ≤ x + w
    → All (λ y. x ≤ y + 0) xs
    → filter (λ t. leb now (t + w)) xs ≡ xs
kept_behind w now x [] h a = refl
kept_behind w now x (y ∷ ys) h a = ground (arith, kept_behind w now x ys h a.1)

-- On a list in time order pruning keeps exactly the entries inside the window.
pub drop_while-eq-filter :
    (w now : ℕ) (xs : List ℕ)
    → Staggered 0 xs
    → drop_while (older w now) xs ≡ filter (λ t. leb now (t + w)) xs
drop_while-eq-filter w now [] h = refl
drop_while-eq-filter w now (x ∷ xs) h = elim (Bool-cases (older w now x)) [
  | inl old ↦ ground (arith, drop_while-eq-filter w now xs h.1)
  | inr new ↦ ground (arith, kept_behind w now x xs (ground arith) h.0)
]
