-- ===== src/Prelude/Members.antt =====
-- Membership with its place, `any`, nested loops that append, slices and stable sorting.
use Prim.Native.Nat.{ℕ, zero, suc, ◌≤◌}
use mathlib.Core.Path.{◌≡◌, refl, sym, ap, subst, ◌∙◌}
use mathlib.Core.Logic.{inl, inr}
use mathlib.Core.Bool.{Bool, true, false, ◌||◌}
use mathlib.Core.Option.{Option, none, some}
use mathlib.Core.List.{List, [], ◌∷◌, ◌++◌, Memᴰ}
use mathlib.Core.List.Memᴰ
use native.Mathlib.Omega.{arith}
use fraudnet.Prelude.Tests.{if◌then◌else◌, Bool-cases, some_eq}
use fraudnet.Prelude.Lists.{All, filter, length}

module _ {ℓ} {A : Type ℓ} where
  pub All-Mem {κ} : (P : A → Type κ) (xs : List A) {a : A} → All P xs → Memᴰ a xs → P a
  All-Mem P [] h m = absurd (Memᴰ.not-nil m)
  All-Mem P (x ∷ xs) h (Memᴰ.head e) = subst P (sym e) h.0
  All-Mem P (x ∷ xs) h (Memᴰ.tail m) = All-Mem P xs h.1 m

  pub All-of_Mem {κ} : (P : A → Type κ) (xs : List A) → ((a : A) → Memᴰ a xs → P a) → All P xs
  All-of_Mem P [] h = tt
  All-of_Mem P (x ∷ xs) h = (h x (Memᴰ.head refl), All-of_Mem P xs (λ a m. h a (Memᴰ.tail m)))

  pub Mem-filter :
      (p : A → Bool) (xs : List A) {a : A} → Memᴰ a (filter p xs) → Memᴰ a xs × (p a ≡ true)
  Mem-filter p [] m = absurd (Memᴰ.not-nil m)
  Mem-filter p (x ∷ xs) {a} m = elim (Bool-cases (p x)) [
    | inl e ↦
        let here = subst (λ b. Memᴰ a (if b then x ∷ filter p xs else filter p xs)) e m in
        elim (Memᴰ.cases_cons here) [
          | inl same ↦ (Memᴰ.head same, ap p same ∙ e)
          | inr m' ↦ let r = Mem-filter p xs m' in (Memᴰ.tail r.0, r.1)
        ]
    | inr e ↦
        let r =
          Mem-filter p xs (subst (λ b. Memᴰ a (if b then x ∷ filter p xs else filter p xs)) e m) in
        (Memᴰ.tail r.0, r.1)
  ]

  pub filter-Mem :
      (p : A → Bool) (xs : List A) {a : A} → Memᴰ a xs → p a ≡ true → Memᴰ a (filter p xs)
  filter-Mem p [] m h = absurd (Memᴰ.not-nil m)
  filter-Mem p (x ∷ xs) {a} (Memᴰ.head same) h =
      subst (λ b. Memᴰ a (if b then x ∷ filter p xs else filter p xs)) (sym h ∙ ap p same)
        (Memᴰ.head same)
  filter-Mem p (x ∷ xs) {a} (Memᴰ.tail m) h =
      elim (p x) as (λ b. Memᴰ a (if b then x ∷ filter p xs else filter p xs)) [
        | true ↦ Memᴰ.tail (filter-Mem p xs m h)
        | false ↦ filter-Mem p xs m h
      ]

  -- What an early `continue` leaves.
  pub if-Mem :
      (b : Bool) (xs : List A) {a : A} → Memᴰ a (if b then [] else xs) → (b ≡ false) × Memᴰ a xs
  if-Mem true xs m = absurd (Memᴰ.not-nil m)
  if-Mem false xs m = (refl, m)

  -- `any(p(x) for x in xs)`
  abbrev pub any : (A → Bool) → List A → Bool
  any p [] = false
  any p (x ∷ xs) = p x || any p xs

  pub any-Mem : (p : A → Bool) (xs : List A) → any p xs ≡ true → (a : A) × Memᴰ a xs × (p a ≡ true)
  any-Mem p [] h = cc
  any-Mem p (x ∷ xs) h = elim (Bool-cases (p x)) [
    | inl e ↦ (x, Memᴰ.head refl, e)
    | inr e ↦
        let r = any-Mem p xs (subst (λ b. (b || any p xs) ≡ true) e h) in (r.0, Memᴰ.tail r.1, r.2)
  ]

  -- `next((x for x in xs if p(x)), None)`
  abbrev pub first : (A → Bool) → List A → Option A
  first p [] = none
  first p (x ∷ xs) = if p x then some x else first p xs

  pub first-Mem :
      (p : A → Bool) (xs : List A) {a : A} → first p xs ≡ some a → Memᴰ a xs × (p a ≡ true)
  first-Mem p [] h = cc
  first-Mem p (x ∷ xs) {a} h = elim (Bool-cases (p x)) [
    | inl e ↦
        let same = some_eq (subst (λ b. (if b then some x else first p xs) ≡ some a) e h) in
        (Memᴰ.head (sym same), ap p (sym same) ∙ e)
    | inr e ↦
        let r = first-Mem p xs (subst (λ b. (if b then some x else first p xs) ≡ some a) e h) in
        (Memᴰ.tail r.0, r.1)
  ]

  -- `xs[:n]`
  abbrev pub take : ℕ → List A → List A
  take zero xs = []
  take (suc n) [] = []
  take (suc n) (x ∷ xs) = x ∷ take n xs

  pub take_all : (n : ℕ) (xs : List A) → length xs ≤ n → take n xs ≡ xs
  take_all zero [] h = refl
  take_all zero (x ∷ xs) h = absurd (omega arith)
  take_all (suc n) [] h = refl
  take_all (suc n) (x ∷ xs) h = ap (λ ys. x ∷ ys) (take_all n xs (omega arith))

  -- Python's stable sort: `before y x` says that y goes strictly before x.
  abbrev pub place : (A → A → Bool) → A → List A → List A
  place before x [] = x ∷ []
  place before x (y ∷ ys) = if before y x then y ∷ place before x ys else x ∷ y ∷ ys

  abbrev pub sort_by : (A → A → Bool) → List A → List A
  sort_by before [] = []
  sort_by before (x ∷ xs) = place before x (sort_by before xs)

  pub All-place {κ} :
      (P : A → Type κ) (before : A → A → Bool) (x : A) (ys : List A)
      → P x
      → All P ys
      → All P (place before x ys)
  All-place P before x [] h hs = (h, tt)
  All-place P before x (y ∷ ys) h hs =
      elim (before y x) as (λ b. All P (if b then y ∷ place before x ys else x ∷ y ∷ ys)) [
        | true ↦ (hs.0, All-place P before x ys h hs.1)
        | false ↦ (h, hs)
      ]

  pub All-sort_by {κ} :
      (P : A → Type κ) (before : A → A → Bool) (xs : List A) → All P xs → All P (sort_by before xs)
  All-sort_by P before [] h = h
  All-sort_by P before (x ∷ xs) h =
      All-place P before x (sort_by before xs) h.0 (All-sort_by P before xs h.1)

  place-Mem :
      (before : A → A → Bool) (x : A) (ys : List A) {a : A}
      → Memᴰ a (x ∷ ys)
      → Memᴰ a (place before x ys)
  place-Mem before x [] m = m
  place-Mem before x (y ∷ ys) {a} m =
      elim (before y x) as (λ b. Memᴰ a (if b then y ∷ place before x ys else x ∷ y ∷ ys)) [
        | true ↦ later (λ m'. place-Mem before x ys m') m
        | false ↦ m
      ]
    where
      later :
          (Memᴰ a (x ∷ ys) → Memᴰ a (place before x ys))
          → Memᴰ a (x ∷ y ∷ ys)
          → Memᴰ a (y ∷ place before x ys)
      later below (Memᴰ.head e) = Memᴰ.tail (below (Memᴰ.head e))
      later below (Memᴰ.tail (Memᴰ.head e)) = Memᴰ.head e
      later below (Memᴰ.tail (Memᴰ.tail m')) = Memᴰ.tail (below (Memᴰ.tail m'))

  pub sort_by-Mem :
      (before : A → A → Bool) (xs : List A) {a : A} → Memᴰ a xs → Memᴰ a (sort_by before xs)
  sort_by-Mem before [] m = m
  sort_by-Mem before (x ∷ xs) (Memᴰ.head e) = place-Mem before x (sort_by before xs) (Memᴰ.head e)
  sort_by-Mem before (x ∷ xs) (Memᴰ.tail m) =
      place-Mem before x (sort_by before xs) (Memᴰ.tail (sort_by-Mem before xs m))

-- `for x in xs: out.extend(f(x))`
module _ {ℓ κ} {A : Type ℓ} {B : Type κ} where
  abbrev pub flat_map : (A → List B) → List A → List B
  flat_map f [] = []
  flat_map f (x ∷ xs) = f x ++ flat_map f xs

  pub Mem-flat_map :
      (f : A → List B) (xs : List A) {b : B}
      → Memᴰ b (flat_map f xs)
      → (a : A) × Memᴰ a xs × Memᴰ b (f a)
  Mem-flat_map f [] m = absurd (Memᴰ.not-nil m)
  Mem-flat_map f (x ∷ xs) m = elim (Memᴰ.append_cases (f x) m) [
    | inl here ↦ (x, Memᴰ.head refl, here)
    | inr later ↦ let r = Mem-flat_map f xs later in (r.0, Memᴰ.tail r.1, r.2)
  ]

  pub flat_map-Mem :
      (f : A → List B) (xs : List A) {a : A} {b : B}
      → Memᴰ a xs
      → Memᴰ b (f a)
      → Memᴰ b (flat_map f xs)
  flat_map-Mem f [] m h = absurd (Memᴰ.not-nil m)
  flat_map-Mem f (x ∷ xs) {a} {b} (Memᴰ.head e) h =
      Memᴰ.append_left (flat_map f xs) (subst (λ y. Memᴰ b (f y)) e h)
  flat_map-Mem f (x ∷ xs) (Memᴰ.tail m) h = Memᴰ.append_right (f x) (flat_map-Mem f xs m h)
