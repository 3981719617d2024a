-- ===== src/Watchlist/Codes.antt =====
-- The shape of a code of `soundex` in services/aml-watchlist/src/aml_watchlist/matching.py.
use fraudnet.Prelude.{
  ℕ, ◌≤◌, ◌≡◌, refl, sym, subst, Bool, true, false, List, [], ◌∷◌, ◌++◌, arith, if◌then◌else◌,
  Bool-cases, inl, inr, length, length-append, All, All-append,
}
use fraudnet.Prelude.Members.{take}
use fraudnet.Watchlist.Similarity.{same}
use fraudnet.Watchlist.Soundex.{soundex_code, appended, encode, soundex}

-- "0" to "6"
abbrev pub IsDigit : ℕ → Type 0
IsDigit d = (48 ≤ d) × (d ≤ 54)

-- No code, or a digit
abbrev Coded : ℕ → Type 0
Coded v = same v 0 ≡ false → IsDigit v

either : (b : Bool) (x y : ℕ) → IsDigit x → Coded y → Coded (if b then x else y)
either true x y dx cy h = dx
either false x y dx cy h = cy h

soundex_code-Coded : (c : ℕ) → Coded (soundex_code c)
unfolding soundex_code
soundex_code-Coded c =
    either _ 49 _ (omega arith, omega arith)
      (either _ 50 _ (omega arith, omega arith)
        (either _ 51 _ (omega arith, omega arith)
          (either _ 52 _ (omega arith, omega arith)
            (either _ 53 _ (omega arith, omega arith)
              (either _ 54 0 (omega arith, omega arith) (λ h. cc))))))

-- Digits, of which at most one is new
abbrev AtMostOne : List ℕ → Type 0
AtMostOne ds = All IsDigit ds × (length ds ≤ 1)

appended-AtMostOne : (code last : ℕ) → Coded code → AtMostOne (appended code last)
appended-AtMostOne code last h = elim (Bool-cases (same code 0)) [
  | inl e ↦ rw e (tt, omega arith)
  | inr e ↦ elim (Bool-cases (same code last)) [
    | inl f ↦ rw (e, f) (tt, omega arith)
    | inr f ↦ rw (e, f) ((h e, tt), omega arith)
  ]
]

-- A first letter and at most three digits
abbrev Encoded : ℕ → List ℕ → Type 0
Encoded f r = (ds : List ℕ) × (r ≡ f ∷ ds) × All IsDigit ds × (length ds ≤ 3)

encode-Encoded :
    (f : ℕ) (ds : List ℕ) (last : ℕ) (cs : List ℕ)
    → All IsDigit ds
    → length ds ≤ 2
    → Encoded f (encode (f ∷ ds) last cs)
unfolding encode
encode-Encoded f ds last [] h short = (ds, refl, h, omega arith)
encode-Encoded f ds last (c ∷ cs) h short =
    let one = appended-AtMostOne (soundex_code c) last (soundex_code-Coded c) in
    let digits = All-append IsDigit ds (appended (soundex_code c) last) h one.0 in
    let longer = length-append ds (appended (soundex_code c) last) in
    elim (Bool-cases (same (length ((f ∷ ds) ++ appended (soundex_code c) last)) 4)) [
      | inl full ↦
          rw full (ds ++ appended (soundex_code c) last, refl, digits, omega (arith, longer, one.1))
      | inr more ↦ rw more (
          encode-Encoded f (ds ++ appended (soundex_code c) last) (soundex_code c) cs digits
            (ground (arith, longer, one.1, more)))
    ]

-- Three digits
abbrev pub Three : ℕ → List ℕ → Type 0
Three f r =
    (a : ℕ) × (b : ℕ) × (c : ℕ) × (r ≡ f ∷ a ∷ b ∷ c ∷ []) × IsDigit a × IsDigit b × IsDigit c

zero-IsDigit : IsDigit 48
zero-IsDigit = (omega arith, omega arith)

padded :
    (f : ℕ) (ds : List ℕ)
    → All IsDigit ds
    → length ds ≤ 3
    → Three f (take 4 ((f ∷ ds) ++ (48 ∷ 48 ∷ 48 ∷ [])))
padded f [] h short = (48, 48, 48, refl, zero-IsDigit, zero-IsDigit, zero-IsDigit)
padded f (a ∷ []) h short = (a, 48, 48, refl, h.0, zero-IsDigit, zero-IsDigit)
padded f (a ∷ b ∷ []) h short = (a, b, 48, refl, h.0, h.1.0, zero-IsDigit)
padded f (a ∷ b ∷ c ∷ []) h short = (a, b, c, refl, h.0, h.1.0, h.1.1.0)
padded f (a ∷ b ∷ c ∷ d ∷ ds) h short = absurd (omega arith)

-- The code of every name with a letter is its first letter and three digits from "0" to "6";
-- without a letter it is empty.
pub soundex-Three : (f : ℕ) (word : List ℕ) → Three f (soundex (f ∷ word)) × (soundex [] ≡ [])
unfolding soundex
soundex-Three f word =
    let e = encode-Encoded f [] (soundex_code f) word tt (omega arith) in
    (
      subst (λ r. Three f (take 4 (r ++ (48 ∷ 48 ∷ 48 ∷ [])))) (sym e.1) (padded f e.0 e.2 e.3),
      refl,
    )
