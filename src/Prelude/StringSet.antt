-- ===== src/Prelude/StringSet.antt =====
-- Python's `set` of texts, by its membership test: a list in which no text is added twice.
use Prim.Native.String.{String}
use mathlib.Core.Path.{◌≡◌, refl}
use mathlib.Core.Bool.{Bool, false, ◌||◌}
use mathlib.Core.List.{List, [], ◌∷◌}
use native.Mathlib.Omega.{arith}
use text.Mathlib.Text.{◌==◌}
use text.Mathlib.TextEquality.{eq_iff}
use fraudnet.Prelude.Tests.{if◌then◌else◌}

-- `x in s`
unfoldable pub member : String → List String → Bool
member x [] = false
member x (y ∷ ys) = y == x || member x ys

-- `s.add(x)`
unfoldable pub add : String → List String → List String
add x s = if member x s then s else x ∷ s

-- `s.discard(x)`
unfoldable pub discard : String → List String → List String
discard x [] = []
discard x (y ∷ ys) = let rest = discard x ys in if y == x then rest else y ∷ rest

-- `set(xs)`
unfoldable pub of_list : List String → List String
of_list [] = []
of_list (x ∷ xs) = add x (of_list xs)

pub member-add : (x y : String) (s : List String) → member y (add x s) ≡ (x == y || member y s)
unfolding member add
member-add x y s = ground (arith, eq_iff x y)

pub member-discard :
    (x y : String) (s : List String)
    → member y (discard x s) ≡ (if x == y then false else member y s)
unfolding member discard
member-discard x y [] = ground arith
member-discard x y (z ∷ s) =
    ground (arith, eq_iff x y, eq_iff z x, eq_iff z y, member-discard x y s)

pub member-of_list : (y : String) (xs : List String) → member y (of_list xs) ≡ member y xs
unfolding member of_list
member-of_list y [] = refl
member-of_list y (x ∷ xs) = rw (member-add, member-of_list y xs) refl
