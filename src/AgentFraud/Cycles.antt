-- ===== src/AgentFraud/Cycles.antt =====
-- The cycles behind a report of commission farming, for `detect_commission_farming` of
-- services/brain-agent-fraud/src/brain_agent_fraud/detectors.py.
use mathlib.Core.List.{Sublistᴰ}
use fraudnet.Prelude.{
  ℕ, ◌+◌, ◌≤◌, ◌<◌, ◌≡◌, ◌∙◌, refl, sym, ap, subst, true, false, List, [], ◌∷◌, eq_iff, arith,
  if◌then◌else◌, Bool-cases, inl, inr, length, All,
}
use fraudnet.AgentFraud.State.{AgentTxn}
use fraudnet.AgentFraud.Detectors.{is_cycle, add_cycle, cycles}

-- The transactions of pairs, one pair after another
abbrev pub flatten : List (AgentTxn × AgentTxn) → List AgentTxn
flatten [] = []
flatten ((a, b) ∷ ps) = a ∷ b ∷ flatten ps

abbrev pub amount_of : List (AgentTxn × AgentTxn) → ℕ
amount_of [] = 0
amount_of ((a, b) ∷ ps) = amount_of ps + (a.amount_minor + b.amount_minor)

-- A cash-in, and a cash-out later than it and within ten minutes
abbrev pub IsCycle : AgentTxn × AgentTxn → Type 0
IsCycle p =
    (p.0.kind ≡ "cash_in")
    × (p.1.kind ≡ "cash_out")
    × (p.0.ts_ms < p.1.ts_ms)
    × (p.1.ts_ms ≤ p.0.ts_ms + 600000)

-- Each transaction with the one after it
abbrev pub pairs : List AgentTxn → List (AgentTxn × AgentTxn)
pairs [] = []
pairs (a ∷ []) = []
pairs (a ∷ (b ∷ rest)) = (a, b) ∷ pairs (b ∷ rest)

-- A count and an amount sum up cycles among neighbours, no transaction in two of them.
abbrev pub Found : List AgentTxn → ℕ × ℕ → Type 0
Found ts r =
    (ps : List (AgentTxn × AgentTxn)) × Sublistᴰ ps (pairs ts)
    × Sublistᴰ (flatten ps) ts
    × All IsCycle ps
    × (length ps ≡ r.0)
    × (amount_of ps ≡ r.1)

-- No choice of cycles among the neighbours has more.
abbrev pub Most : List AgentTxn → ℕ → Type 0
Most ts n =
    (qs : List (AgentTxn × AgentTxn)) → Sublistᴰ qs (pairs ts) → All IsCycle qs → length qs ≤ n

abbrev pub IsCounted : List AgentTxn → ℕ × ℕ → Type 0
IsCounted ts r = Found ts r × Most ts r.0

is_cycle_lem : (a b : AgentTxn) → is_cycle a b ≡ true → IsCycle (a, b)
is_cycle_lem a b h = (
  ground (arith, h, eq_iff a.kind "cash_in"),
  ground (arith, h, eq_iff b.kind "cash_out"),
  ground (arith, h),
  ground (arith, h),
)

Sublist-none : {A : Type 0} (ts : List A) → Sublistᴰ [] ts
Sublist-none [] = Sublistᴰ.slnil
Sublist-none (t ∷ ts) = Sublistᴰ.cons (Sublist-none ts)

is_cycle_of : (a b : AgentTxn) → IsCycle (a, b) → is_cycle a b ≡ true
is_cycle_of a b (i, o, later, within) =
    rw (is_cycle, (eq_iff a.kind "cash_in").1 i, (eq_iff b.kind "cash_out").1 o)
      (ground (arith, later, within))

Sublist-pairs :
    (b : AgentTxn) (rest : List AgentTxn) {ps : List (AgentTxn × AgentTxn)}
    → Sublistᴰ ps (pairs rest)
    → Sublistᴰ ps (pairs (b ∷ rest))
Sublist-pairs b [] h = h
Sublist-pairs b (c ∷ rest) h = Sublistᴰ.cons h

no_pair : (q : AgentTxn × AgentTxn) (qs : List (AgentTxn × AgentTxn)) → ¬ Sublistᴰ (q ∷ qs) []
no_pair q qs h = elim h [ ]

-- No cycle starts with a cash-out.
after_cash_out :
    (b : AgentTxn) (rest : List AgentTxn) (qs : List (AgentTxn × AgentTxn))
    → b.kind ≡ "cash_out"
    → All IsCycle qs
    → Sublistᴰ qs (pairs (b ∷ rest))
    → Sublistᴰ qs (pairs rest)
after_cash_out b [] qs out h m = m
after_cash_out b (c ∷ rest) qs out h (Sublistᴰ.cons m) = m
after_cash_out b (c ∷ rest) (q ∷ qs) out h (Sublistᴰ.cons-cons e m) =
    absurd (cc (sym (ap (λ p. p.0.kind) e) ∙ h.0.0, out))

cycles-Found : (ts : List AgentTxn) → Found ts (cycles ts)
unfolding cycles
cycles-Found [] = ([], Sublistᴰ.slnil, Sublistᴰ.slnil, tt, refl, refl)
cycles-Found (a ∷ []) = ([], Sublistᴰ.slnil, Sublist-none (a ∷ []), tt, refl, refl)
cycles-Found (a ∷ (b ∷ rest)) = elim (Bool-cases (is_cycle a b)) [
  | inl e ↦
      let (ps, m, f, h, n, x) = cycles-Found rest in
      subst
        (λ c. Found (a ∷ b ∷ rest) (if c then add_cycle a b (cycles rest) else cycles (b ∷ rest)))
        (sym e)
        (
          (a, b) ∷ ps,
          Sublistᴰ.cons-cons refl (Sublist-pairs b rest m),
          Sublistᴰ.cons-cons refl (Sublistᴰ.cons-cons refl f),
          (is_cycle_lem a b e, h),
          omega (arith, n),
          omega (arith, x),
        )
  | inr e ↦
      let (ps, m, f, h, n, x) = cycles-Found (b ∷ rest) in
      subst
        (λ c. Found (a ∷ b ∷ rest) (if c then add_cycle a b (cycles rest) else cycles (b ∷ rest)))
        (sym e) (ps, Sublistᴰ.cons m, Sublistᴰ.cons f, h, n, x)
]

Most-cycle :
    (a b : AgentTxn) (rest : List AgentTxn) (n : ℕ)
    → b.kind ≡ "cash_out"
    → Most rest n
    → Most (a ∷ b ∷ rest) (n + 1)
Most-cycle a b rest n out most qs (Sublistᴰ.cons m) h =
    omega (arith, most qs (after_cash_out b rest qs out h m) h)
Most-cycle a b rest n out most (q ∷ qs) (Sublistᴰ.cons-cons e m) h =
    omega (arith, most qs (after_cash_out b rest qs out h.1 m) h.1)

Most-other :
    (a b : AgentTxn) (rest : List AgentTxn) (n : ℕ)
    → is_cycle a b ≡ false
    → Most (b ∷ rest) n
    → Most (a ∷ b ∷ rest) n
Most-other a b rest n other most qs (Sublistᴰ.cons m) h = most qs m h
Most-other a b rest n other most (q ∷ qs) (Sublistᴰ.cons-cons e m) h =
    absurd (cc (sym other ∙ is_cycle_of a b (subst IsCycle e h.0)))

none_most : (qs : List (AgentTxn × AgentTxn)) → Sublistᴰ qs [] → All IsCycle qs → length qs ≤ 0
none_most [] m h = omega arith
none_most (q ∷ qs) m h = absurd (no_pair q qs m)

cycles-Most : (ts : List AgentTxn) → Most ts (cycles ts).0
unfolding cycles
cycles-Most [] = none_most
cycles-Most (a ∷ []) = none_most
cycles-Most (a ∷ (b ∷ rest)) = elim (Bool-cases (is_cycle a b)) [
  | inl e ↦
      subst
        (λ c. Most (a ∷ b ∷ rest) (if c then add_cycle a b (cycles rest) else cycles (b ∷ rest)).0)
        (sym e) (Most-cycle a b rest (cycles rest).0 (is_cycle_lem a b e).1 (cycles-Most rest))
  | inr e ↦
      subst
        (λ c. Most (a ∷ b ∷ rest) (if c then add_cycle a b (cycles rest) else cycles (b ∷ rest)).0)
        (sym e) (Most-other a b rest (cycles (b ∷ rest)).0 e (cycles-Most (b ∷ rest)))
]

-- The count and the amount of the loop over the transactions of one counterparty are those of
-- cycles among neighbouring transactions, in their order and with no transaction in two of them,
-- and no choice of cycles among the neighbours has more: every cycle is counted.
pub cycles-IsCounted : (ts : List AgentTxn) → IsCounted ts (cycles ts)
cycles-IsCounted ts = (cycles-Found ts, cycles-Most ts)
