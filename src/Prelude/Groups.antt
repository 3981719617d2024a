-- ===== src/Prelude/Groups.antt =====
-- A `defaultdict(list)` that a loop fills by `out[key].append(value)`, for keys compared by `same`.
use mathlib.Core.Path.{◌≡◌, refl, sym, subst}
use mathlib.Core.Logic.{inl, inr, ◌↔◌}
use mathlib.Core.Bool.{Bool, true}
use mathlib.Core.List.{List, [], ◌∷◌, ◌++◌, Memᴰ}
use mathlib.Core.List.Memᴰ
use fraudnet.Prelude.Tests.{if◌then◌else◌, Bool-cases}
use fraudnet.Prelude.Lists.{All, All-append}

abbrev pub Groups {ℓ κ} : Type ℓ → Type κ → Type (ℓ ⊔ κ)
Groups K V = List (K × List V)

-- What holds of each value under its key.
abbrev pub Under {ℓ κ μ} : {K : Type ℓ} {V : Type κ} → (K → V → Type μ) → Groups K V → Type μ
Under P d = All (λ g. All (P g.0) g.1) d

module _ {ℓ κ} {K : Type ℓ} {V : Type κ} (same : K → K → Bool) where
  -- `out[k].append(v)`
  abbrev pub append_to : K → V → Groups K V → Groups K V
  append_to k v [] = (k, v ∷ []) ∷ []
  append_to k v ((j, vs) ∷ d) =
      if same j k then (j, vs ++ v ∷ []) ∷ d else (j, vs) ∷ append_to k v d

  -- `for x in xs: out[key(x)].append(value(x))`
  abbrev pub group {μ} : {X : Type μ} → (X → K) → (X → V) → List X → Groups K V → Groups K V
  group key value [] d = d
  group key value (x ∷ xs) d = group key value xs (append_to (key x) (value x) d)

  -- `out.get(k, [])`
  abbrev pub find : K → Groups K V → List V
  find k [] = []
  find k ((j, vs) ∷ d) = if same j k then vs else find k d

module _ {ℓ κ} {K : Type ℓ} {V : Type κ} (same : K → K → Bool)
    (same_iff : (j k : K) → (same j k ≡ true) ↔ (j ≡ k)) where
  append_to-Under {μ} :
      (P : K → V → Type μ) (k : K) (v : V) (d : Groups K V)
      → P k v
      → Under P d
      → Under P (append_to same k v d)
  append_to-Under P k v [] h hs = ((h, tt), tt)
  append_to-Under P k v ((j, vs) ∷ d) h hs = elim (Bool-cases (same j k)) [
    | inl e ↦ rw e (
      All-append (P j) vs (v ∷ []) hs.0 (subst (λ i. P i v) (sym ((same_iff j k).0 e)) h, tt),
      hs.1,
    )
    | inr e ↦ rw e (hs.0, append_to-Under P k v d h hs.1)
  ]

  pub group-Under {μ ν} :
      {X : Type ν} (P : K → V → Type μ) (key : X → K) (value : X → V) (xs : List X) (d : Groups K V)
      → All (λ x. P (key x) (value x)) xs
      → Under P d
      → Under P (group same key value xs d)
  group-Under P key value [] d h hs = hs
  group-Under P key value (x ∷ xs) d h hs =
      group-Under P key value xs (append_to same (key x) (value x) d) h.1
        (append_to-Under P (key x) (value x) d h.0 hs)

  pub find-Under {μ} :
      (P : K → V → Type μ) (k : K) (d : Groups K V) → Under P d → All (P k) (find same k d)
  find-Under P k [] hs = tt
  find-Under P k ((j, vs) ∷ d) hs = elim (Bool-cases (same j k)) [
    | inl e ↦ rw e (subst (λ i. All (P i) vs) ((same_iff j k).0 e) hs.0)
    | inr e ↦ rw e (find-Under P k d hs.1)
  ]

  append_to_Mem : (k : K) (v : V) (d : Groups K V) → Memᴰ v (find same k (append_to same k v d))
  append_to_Mem k v [] = rw ((same_iff k k).1 refl) (Memᴰ.head refl)
  append_to_Mem k v ((j, vs) ∷ d) = elim (Bool-cases (same j k)) [
    | inl e ↦ rw (e, e) (Memᴰ.append_right vs (Memᴰ.head refl))
    | inr e ↦ rw (e, e) (append_to_Mem k v d)
  ]

  append_to_keeps :
      (k i : K) (v w : V) (d : Groups K V)
      → Memᴰ w (find same i d)
      → Memᴰ w (find same i (append_to same k v d))
  append_to_keeps k i v w [] m = absurd (Memᴰ.not-nil m)
  append_to_keeps k i v w ((j, vs) ∷ d) m = elim (Bool-cases (same j i)) [
    | inl e ↦
        let m' = subst (λ b. Memᴰ w (if b then vs else find same i d)) e m in
        elim (Bool-cases (same j k)) [
          | inl a ↦ rw (a, e) (Memᴰ.append_left (v ∷ []) m')
          | inr a ↦ rw (a, e) m'
        ]
    | inr e ↦
        let m' = subst (λ b. Memᴰ w (if b then vs else find same i d)) e m in
        elim (Bool-cases (same j k)) [
          | inl a ↦ rw (a, e) m'
          | inr a ↦ rw (a, e) (append_to_keeps k i v w d m')
        ]
  ]

  pub group_keeps {ν} :
      {X : Type ν} (key : X → K) (value : X → V) (xs : List X) (d : Groups K V) (i : K) {w : V}
      → Memᴰ w (find same i d)
      → Memᴰ w (find same i (group same key value xs d))
  group_keeps key value [] d i m = m
  group_keeps key value (x ∷ xs) d i {w} m =
      group_keeps key value xs (append_to same (key x) (value x) d) i
        (append_to_keeps (key x) i (value x) w d m)

  pub group_Mem {ν} :
      {X : Type ν} (key : X → K) (value : X → V) (xs : List X) (d : Groups K V) {x : X}
      → Memᴰ x xs
      → Memᴰ (value x) (find same (key x) (group same key value xs d))
  group_Mem key value [] d m = absurd (Memᴰ.not-nil m)
  group_Mem key value (y ∷ ys) d {x} (Memᴰ.head e) =
      group_keeps key value ys (append_to same (key y) (value y) d) (key x) (
        subst (λ z. Memᴰ (value z) (find same (key z) (append_to same (key y) (value y) d))) (sym e)
          (append_to_Mem (key y) (value y) d))
  group_Mem key value (y ∷ ys) d (Memᴰ.tail m) =
      group_Mem key value ys (append_to same (key y) (value y) d) m
