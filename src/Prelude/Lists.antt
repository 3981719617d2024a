-- ===== src/Prelude/Lists.antt =====
-- Lists measured by native numbers, under the library's names, and the lemmas on them.
use Prim.Native.Nat.{ℕ, suc, ◌+◌, ◌≤◌}
use mathlib.Core.Path.{◌≡◌, refl}
use mathlib.Core.Bool.{Bool, true, false}
use mathlib.Core.List.{List, [], ◌∷◌, ◌++◌, Sublistᴰ}
use native.Mathlib.Omega.{arith}
use fraudnet.Prelude.Tests.{if◌then◌else◌}

module _ {ℓ} {A : Type ℓ} where
  abbrev pub length : List A → ℕ
  length [] = 0
  length (x ∷ xs) = suc (length xs)

  pub length-append : (xs ys : List A) → length (xs ++ ys) ≡ length xs + length ys
  length-append [] ys = omega arith
  length-append (x ∷ xs) ys = omega (arith, length-append xs ys)

  -- `[x for x in xs if p(x)]`
  abbrev pub filter : (A → Bool) → List A → List A
  filter p [] = []
  filter p (x ∷ xs) = if p x then x ∷ filter p xs else filter p xs

  -- `sum(1 for x in xs if p(x))`
  abbrev pub count : (A → Bool) → List A → ℕ
  count p [] = 0
  count p (x ∷ xs) = if p x then suc (count p xs) else count p xs

  -- `while q and p(q[0]): q.popleft()`
  abbrev pub drop_while : (A → Bool) → List A → List A
  drop_while p [] = []
  drop_while p (x ∷ xs) = if p x then drop_while p xs else x ∷ xs

  pub length-drop_while : (p : A → Bool) (xs : List A) → length (drop_while p xs) ≤ length xs
  length-drop_while p [] = omega arith
  length-drop_while p (x ∷ xs) = ground (arith, length-drop_while p xs)

  pub count-le-length : (p : A → Bool) (xs : List A) → count p xs ≤ length xs
  count-le-length p [] = omega arith
  count-le-length p (x ∷ xs) = ground (arith, count-le-length p xs)

  pub length-filter : (p : A → Bool) (xs : List A) → length (filter p xs) ≡ count p xs
  length-filter p [] = refl
  length-filter p (x ∷ xs) = ground (arith, length-filter p xs)

  -- A predicate of every element, which computes to a tuple.
  abbrev pub All {κ} : (A → Type κ) → List A → Type κ
  All P [] = Unit
  All P (x ∷ xs) = P x × All P xs

  pub All-append {κ} : (P : A → Type κ) (xs ys : List A) → All P xs → All P ys → All P (xs ++ ys)
  All-append P [] ys hx hy = hy
  All-append P (x ∷ xs) ys hx hy = (hx.0, All-append P xs ys hx.1 hy)

  pub All-drop_while {κ} :
      (P : A → Type κ) (p : A → Bool) (xs : List A) → All P xs → All P (drop_while p xs)
  All-drop_while P p [] h = h
  All-drop_while P p (x ∷ xs) h =
      elim (p x) as (λ b. All P (if b then drop_while p xs else x ∷ xs)) [
        | true ↦ All-drop_while P p xs h.1
        | false ↦ h
      ]

  pub Sublist-append_right : {xs ys : List A} (a : A) → Sublistᴰ xs ys → Sublistᴰ xs (ys ++ a ∷ [])
  Sublist-append_right a Sublistᴰ.slnil = Sublistᴰ.cons Sublistᴰ.slnil
  Sublist-append_right a (Sublistᴰ.cons d) = Sublistᴰ.cons (Sublist-append_right a d)
  Sublist-append_right a (Sublistᴰ.cons-cons e d) = Sublistᴰ.cons-cons e (Sublist-append_right a d)

  pub Sublist-append_both :
      {xs ys : List A} (a : A) → Sublistᴰ xs ys → Sublistᴰ (xs ++ a ∷ []) (ys ++ a ∷ [])
  Sublist-append_both a Sublistᴰ.slnil = Sublistᴰ.cons-cons refl Sublistᴰ.slnil
  Sublist-append_both a (Sublistᴰ.cons d) = Sublistᴰ.cons (Sublist-append_both a d)
  Sublist-append_both a (Sublistᴰ.cons-cons e d) = Sublistᴰ.cons-cons e (Sublist-append_both a d)
