-- ===== src/Federation/Scores.antt =====
-- The largest score of a hash and the operators that saw it, over a list of sightings, for
-- packages/federation/src/fraudnet/federation/merge.py.
use mathlib.Core.List.{Memᴰ}
use mathlib.Core.List.Memᴰ
use fraudnet.Prelude.{
  ℕ, ◌≤◌, ◌≡◌, ◌∙◌, ◌⊎◌, ◌↔◌, refl, sym, ap, subst, String, Bool, true, false, ◌||◌, ◌&&◌, Option,
  none, some, List, [], ◌∷◌, arith, ltb, ◌==◌, eq_iff, if◌then◌else◌, Bool-cases, inl, inr, max,
  some_eq,
}
use fraudnet.Federation.Merge.{RemoteNode, max_optional}

-- A score after one more sighting
abbrev pub step_score : String → Option ℕ → RemoteNode → Option ℕ
step_score h best n = if n.identifier_hash == h then max_optional best n.risk_score else best

abbrev pub top_score : String → Option ℕ → List (RemoteNode × String) → Option ℕ
top_score h best [] = best
top_score h best ((n, o) ∷ ss) = top_score h (step_score h best n) ss

-- Whether an operator saw a hash.
abbrev pub saw : String → String → List (RemoteNode × String) → Bool
saw h o [] = false
saw h o ((n, p) ∷ ss) = (n.identifier_hash == h && p == o) || saw h o ss

abbrev AtLeast : ℕ → Option ℕ → Type 0
AtLeast x o = (t : ℕ) × (o ≡ some t) × (x ≤ t)

max_optional-left : (a b : Option ℕ) (x : ℕ) → a ≡ some x → AtLeast x (max_optional a b)
max_optional-left none b x e = cc
max_optional-left (some a) none x e = (a, refl, let s = some_eq e in omega (arith, s))
max_optional-left (some a) (some b) x e = (max a b, refl, let s = some_eq e in omega (arith, s))

max_optional-right : (a b : Option ℕ) (x : ℕ) → b ≡ some x → AtLeast x (max_optional a b)
max_optional-right none b x e = (x, e, omega arith)
max_optional-right (some a) none x e = cc
max_optional-right (some a) (some b) x e = (max a b, refl, let s = some_eq e in omega (arith, s))

max_optional-from :
    (a b : Option ℕ) (t : ℕ) → max_optional a b ≡ some t → (a ≡ some t) ⊎ (b ≡ some t)
max_optional-from none b t e = inr e
max_optional-from (some a) none t e = inl e
max_optional-from (some a) (some b) t e = elim (Bool-cases (ltb a b)) [
  | inl less ↦ let s = some_eq e in let l : b ≡ t = ground (arith, less, s) in inr (ap some l)
  | inr more ↦ let s = some_eq e in let l : a ≡ t = ground (arith, more, s) in inl (ap some l)
]

step_score-kept :
    (h : String) (best : Option ℕ) (n : RemoteNode) (x : ℕ)
    → best ≡ some x
    → AtLeast x (step_score h best n)
step_score-kept h best n x e =
    elim (n.identifier_hash == h)
      as (λ b. AtLeast x (if b then max_optional best n.risk_score else best)) [
        | true ↦ max_optional-left best n.risk_score x e
        | false ↦ (x, e, omega arith)
      ]

step_score-own :
    (h : String) (best : Option ℕ) (n : RemoteNode) (x : ℕ)
    → n.identifier_hash ≡ h
    → n.risk_score ≡ some x
    → AtLeast x (step_score h best n)
step_score-own h best n x own e =
    subst (λ b. AtLeast x (if b then max_optional best n.risk_score else best))
      (sym ((eq_iff n.identifier_hash h).1 own)) (max_optional-right best n.risk_score x e)

step_score-from :
    (h : String) (best : Option ℕ) (n : RemoteNode) (t : ℕ)
    → step_score h best n ≡ some t
    → (best ≡ some t) ⊎ ((n.identifier_hash ≡ h) × (n.risk_score ≡ some t))
step_score-from h best n t e = elim (Bool-cases (n.identifier_hash == h)) [
  | inr other ↦ inl (sym (ap (λ b. if b then max_optional best n.risk_score else best) other) ∙ e)
  | inl own ↦
      elim (max_optional-from best n.risk_score t
        (sym (ap (λ b. if b then max_optional best n.risk_score else best) own) ∙ e)) [
          | inl before ↦ inl before
          | inr here ↦ inr ((eq_iff n.identifier_hash h).0 own, here)
        ]
]

top_score-kept :
    (h : String) (best : Option ℕ) (ss : List (RemoteNode × String)) (x : ℕ)
    → best ≡ some x
    → AtLeast x (top_score h best ss)
top_score-kept h best [] x e = (x, e, omega arith)
top_score-kept h best ((n, o) ∷ ss) x e =
    let (c, f, l) = step_score-kept h best n x e in
    let (t, g, k) = top_score-kept h (step_score h best n) ss c f in (t, g, omega (arith, l, k))

-- The top is at least each score of the hash.
pub top_score-bound :
    (h : String) (best : Option ℕ) (ss : List (RemoteNode × String)) (n : RemoteNode) (o : String)
    (x : ℕ)
    → Memᴰ (n, o) ss
    → n.identifier_hash ≡ h
    → n.risk_score ≡ some x
    → AtLeast x (top_score h best ss)
top_score-bound h best [] n o x m own e = absurd (Memᴰ.not-nil m)
top_score-bound h best ((n', o') ∷ ss) n o x (Memᴰ.head same) own e =
    let at = ap (λ p. p.0) same in
    let (c, f, l) =
      step_score-own h best n' x (sym (ap (λ y. y.identifier_hash) at) ∙ own)
        (sym (ap (λ y. y.risk_score) at) ∙ e) in
    let (t, g, k) = top_score-kept h (step_score h best n') ss c f in (t, g, omega (arith, l, k))
top_score-bound h best ((n', o') ∷ ss) n o x (Memᴰ.tail m) own e =
    top_score-bound h (step_score h best n') ss n o x m own e

-- The top is one of the scores of the hash.
pub top_score-from :
    (h : String) (best : Option ℕ) (ss : List (RemoteNode × String)) (t : ℕ)
    → top_score h best ss ≡ some t
    → (best ≡ some t)
      ⊎ ((n : RemoteNode) × (o : String) × Memᴰ (n, o) ss
          × (n.identifier_hash ≡ h)
          × (n.risk_score ≡ some t))
top_score-from h best [] t e = inl e
top_score-from h best ((n, o) ∷ ss) t e = elim (top_score-from h (step_score h best n) ss t e) [
  | inr (m, p, k, own, s) ↦ inr (m, p, Memᴰ.tail k, own, s)
  | inl f ↦ elim (step_score-from h best n t f) [
    | inl before ↦ inl before
    | inr (own, s) ↦ inr (n, o, Memᴰ.head refl, own, s)
  ]
]

pub saw-Mem :
    (h o : String) (ss : List (RemoteNode × String))
    → (saw h o ss ≡ true) ↔ ((n : RemoteNode) × Memᴰ (n, o) ss × (n.identifier_hash ≡ h))
saw-Mem h o ss = (sighting ss, seen ss)
  where
    sighting :
        (ss : List (RemoteNode × String))
        → saw h o ss ≡ true
        → (n : RemoteNode) × Memᴰ (n, o) ss × (n.identifier_hash ≡ h)
    sighting [] e = cc
    sighting ((n, p) ∷ ss) e = elim (Bool-cases (n.identifier_hash == h && p == o)) [
      | inl here ↦
          let own : (n.identifier_hash == h) ≡ true = ground (arith, here) in
          let by : (p == o) ≡ true = ground (arith, here) in
          (
            n,
            Memᴰ.head (ap (λ x. (n, x)) (sym ((eq_iff p o).0 by))),
            (eq_iff n.identifier_hash h).0 own,
          )
      | inr elsewhere ↦
          let (m, k, own) = sighting ss (sym (ap (λ b. b || saw h o ss) elsewhere) ∙ e) in
          (m, Memᴰ.tail k, own)
    ]

    seen :
        (ss : List (RemoteNode × String))
        → (n : RemoteNode) × Memᴰ (n, o) ss × (n.identifier_hash ≡ h)
        → saw h o ss ≡ true
    seen [] (n, m, own) = absurd (Memᴰ.not-nil m)
    seen ((n', p) ∷ ss) (n, Memᴰ.tail m, own) = let r = seen ss (n, m, own) in ground (arith, r)
    seen ((n', p) ∷ ss) (n, Memᴰ.head same, own) =
        let a = (eq_iff n'.identifier_hash h).1 (sym (ap (λ q. q.0.identifier_hash) same) ∙ own) in
        let b = (eq_iff p o).1 (sym (ap (λ q. q.1) same)) in ground (arith, a, b)
