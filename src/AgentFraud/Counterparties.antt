-- ===== src/AgentFraud/Counterparties.antt =====
-- The groups of transactions by their counterparty, for
-- services/brain-agent-fraud/src/brain_agent_fraud/detectors.py.
use mathlib.Core.List.{Memᴰ, append-nil, append_assoc}
use mathlib.Core.List.Memᴰ
use fraudnet.Prelude.{
  ◌≡◌, ◌∙◌, ◌⊎◌, refl, sym, ap, String, Bool, true, false, ◌&&◌, ◌||◌, Option, none, some, List, [],
  ◌∷◌, ◌++◌, ◌==◌, eq_iff, arith, if◌then◌else◌, Bool-cases, inl, inr, filter, truthy,
}
use fraudnet.Prelude.Members.{any}
use fraudnet.Prelude.Groups.{Groups, append_to, find}
use fraudnet.AgentFraud.State.{AgentTxn}
use fraudnet.AgentFraud.Detectors.{group_at, by_counterparty}

-- Is the counterparty of a transaction this one?
abbrev pub is_with : String → Option String → Bool
is_with cp none = false
is_with cp (some other) = other == cp

abbrev pub deals : (AgentTxn → Bool) → String → AgentTxn → Bool
deals p cp t = p t && is_with cp (truthy t.counterparty_id)

find-append_to :
    (k cp : String) (t : AgentTxn) (d : Groups String AgentTxn)
    → find ◌==◌ cp (append_to ◌==◌ k t d) ≡ find ◌==◌ cp d ++ (if k == cp then t ∷ [] else [])
find-append_to k cp t [] = ground arith
find-append_to k cp t ((j, ts) ∷ d) = elim (Bool-cases (j == cp)) [
  | inl own ↦ elim (Bool-cases (j == k)) [
    | inl e ↦ rw (e, own) (ground (arith, eq_iff j k, eq_iff j cp, eq_iff k cp, append-nil ts))
    | inr e ↦ rw (e, own) (ground (arith, eq_iff j k, eq_iff j cp, eq_iff k cp, append-nil ts))
  ]
  | inr other ↦ elim (Bool-cases (j == k)) [
    | inl e ↦
        rw (e, other)
          (ground (arith, eq_iff j k, eq_iff j cp, eq_iff k cp, append-nil (find ◌==◌ cp d)))
    | inr e ↦ rw (e, other) (find-append_to k cp t d)
  ]
]

find-group_at :
    (p : AgentTxn → Bool) (t : AgentTxn) (o : Option String) (cp : String)
    (d : Groups String AgentTxn)
    → find ◌==◌ cp (group_at p t o d)
      ≡ find ◌==◌ cp d ++ (if p t && is_with cp o then t ∷ [] else [])
unfolding group_at
find-group_at p t none cp d = elim (Bool-cases (p t)) [
  | inl e ↦ rw e (sym (append-nil (find ◌==◌ cp d)))
  | inr e ↦ rw e (sym (append-nil (find ◌==◌ cp d)))
]
find-group_at p t (some other) cp d = elim (Bool-cases (p t)) [
  | inl e ↦ rw e (find-append_to other cp t d)
  | inr e ↦ rw e (sym (append-nil (find ◌==◌ cp d)))
]

pub find-by_counterparty :
    (p : AgentTxn → Bool) (cp : String) (ts : List AgentTxn) (d : Groups String AgentTxn)
    → find ◌==◌ cp (by_counterparty p ts d) ≡ find ◌==◌ cp d ++ filter (deals p cp) ts
unfolding by_counterparty
find-by_counterparty p cp [] d = sym (append-nil (find ◌==◌ cp d))
find-by_counterparty p cp (t ∷ ts) d =
    find-by_counterparty p cp ts (group_at p t (truthy t.counterparty_id) d)
    ∙ ap (λ xs. xs ++ filter (deals p cp) ts) (find-group_at p t (truthy t.counterparty_id) cp d)
    ∙ append_assoc (find ◌==◌ cp d) _ (filter (deals p cp) ts)
    ∙ ap (λ xs. find ◌==◌ cp d ++ xs) (joined (deals p cp t))
  where
    joined :
        (b : Bool)
        → (if b then t ∷ [] else []) ++ filter (deals p cp) ts
          ≡ (if b then t ∷ filter (deals p cp) ts else filter (deals p cp) ts)
    joined true = refl
    joined false = refl

-- No key stands twice among the groups.
abbrev pub HasKeysOnce : Groups String AgentTxn → Type 0
HasKeysOnce [] = Unit
HasKeysOnce ((k, ts) ∷ d) = (any (λ g. g.0 == k) d ≡ false) × HasKeysOnce d

any-append_to :
    (k j : String) (t : AgentTxn) (d : Groups String AgentTxn)
    → any (λ g. g.0 == j) (append_to ◌==◌ k t d) ≡ (k == j || any (λ g. g.0 == j) d)
any-append_to k j t [] = refl
any-append_to k j t ((i, ts) ∷ d) = elim (Bool-cases (i == k)) [
  | inl e ↦ rw e (ground (arith, eq_iff i k, eq_iff i j, eq_iff k j))
  | inr e ↦ rw e (ground (arith, any-append_to k j t d))
]

append_to-HasKeysOnce :
    (k : String) (t : AgentTxn) (d : Groups String AgentTxn)
    → HasKeysOnce d
    → HasKeysOnce (append_to ◌==◌ k t d)
append_to-HasKeysOnce k t [] h = (refl, tt)
append_to-HasKeysOnce k t ((i, ts) ∷ d) h = elim (Bool-cases (i == k)) [
  | inl e ↦ rw e h
  | inr e ↦ rw e (
    ground (arith, any-append_to k i t d, h.0, eq_iff i k, eq_iff k i),
    append_to-HasKeysOnce k t d h.1,
  )
]

group_at-HasKeysOnce :
    (p : AgentTxn → Bool) (t : AgentTxn) (o : Option String) (d : Groups String AgentTxn)
    → HasKeysOnce d
    → HasKeysOnce (group_at p t o d)
unfolding group_at
group_at-HasKeysOnce p t none d h = h
group_at-HasKeysOnce p t (some cp) d h = elim (Bool-cases (p t)) [
  | inl e ↦ rw e (append_to-HasKeysOnce cp t d h)
  | inr e ↦ rw e h
]

pub by_counterparty-HasKeysOnce :
    (p : AgentTxn → Bool) (ts : List AgentTxn) (d : Groups String AgentTxn)
    → HasKeysOnce d
    → HasKeysOnce (by_counterparty p ts d)
unfolding by_counterparty
by_counterparty-HasKeysOnce p [] d h = h
by_counterparty-HasKeysOnce p (t ∷ ts) d h =
    by_counterparty-HasKeysOnce p ts (group_at p t (truthy t.counterparty_id) d)
      (group_at-HasKeysOnce p t (truthy t.counterparty_id) d h)

Mem-any :
    (k : String) (d : Groups String AgentTxn) {ts : List AgentTxn}
    → Memᴰ (k, ts) d
    → any (λ g. g.0 == k) d ≡ true
Mem-any k [] m = absurd (Memᴰ.not-nil m)
Mem-any k ((j, us) ∷ d) (Memᴰ.head e) = ground (arith, eq_iff j k, ap (λ g. g.0) e)
Mem-any k ((j, us) ∷ d) (Memᴰ.tail m) = ground (arith, Mem-any k d m)

pub entry-find :
    (k : String) (d : Groups String AgentTxn) {ts : List AgentTxn}
    → HasKeysOnce d
    → Memᴰ (k, ts) d
    → find ◌==◌ k d ≡ ts
entry-find k [] h m = absurd (Memᴰ.not-nil m)
entry-find k ((j, us) ∷ d) h (Memᴰ.head e) =
    ground (arith, eq_iff j k, ap (λ g. g.0) e, ap (λ g. g.1) e)
entry-find k ((j, us) ∷ d) h (Memᴰ.tail m) =
    ground (arith, eq_iff j k, entry-find k d h.1 m, Mem-any k d m, h.0)

pub find-entry :
    (k : String) (d : Groups String AgentTxn) → (find ◌==◌ k d ≡ []) ⊎ Memᴰ (k, find ◌==◌ k d) d
find-entry k [] = inl refl
find-entry k ((j, us) ∷ d) = elim (Bool-cases (j == k)) [
  | inl e ↦ rw e (inr (Memᴰ.head (λ i. (sym ((eq_iff j k).0 e) i, us))))
  | inr e ↦ rw e (later (find-entry k d))
]
  where
    later :
        (find ◌==◌ k d ≡ []) ⊎ Memᴰ (k, find ◌==◌ k d) d
        → (find ◌==◌ k d ≡ []) ⊎ Memᴰ (k, find ◌==◌ k d) ((j, us) ∷ d)
    later (inl none') = inl none'
    later (inr m) = inr (Memᴰ.tail m)
