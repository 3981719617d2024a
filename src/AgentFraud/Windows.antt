-- ===== src/AgentFraud/Windows.antt =====
-- The transactions that an agent's window keeps, for `AgentStateStore` of
-- services/brain-agent-fraud/src/brain_agent_fraud/state.py.
use mathlib.Core.List.{append_assoc}
use fraudnet.Prelude.{
  ℕ, ◌+◌, ◌≤◌, ◌*◌, ◌≡◌, ◌∙◌, refl, sym, ap, subst, ◌⊎◌, String, Bool, true, false, Option, none,
  some, List, [], ◌∷◌, ◌++◌, ◌==◌, eq_iff, arith, if◌then◌else◌, Bool-cases, inl, inr, length,
  drop_while, ltb,
}
use fraudnet.Prelude.Dict
use fraudnet.Prelude.Dict.{Dict, lookup-insert}
use fraudnet.AgentFraud.State.{
  AgentTxn, AgentStateStore, new_store, stale, trim, push, window_of, append, append_all,
}

-- The time of the newest transaction
abbrev pub newest : List AgentTxn → ℕ
newest [] = 0
newest (t ∷ []) = t.ts_ms
newest (t ∷ u ∷ ts) = newest (u ∷ ts)

-- The oldest is within the window before a time.
abbrev pub IsFresh : ℕ → ℕ → List AgentTxn → Type 0
IsFresh window ts [] = Unit
IsFresh window ts (t ∷ rest) = ts ≤ t.ts_ms + window

-- An end of a history, of at most so many transactions; unless there are that many, the oldest is
-- within the window before the newest of the history.
abbrev pub IsWindow : ℕ → ℕ → List AgentTxn → List AgentTxn → Type 0
IsWindow window cap history dq =
    ((dropped : List AgentTxn) × (history ≡ dropped ++ dq))
    × (length dq ≤ cap)
    × (IsFresh window (newest history) dq ⊎ (length dq ≡ cap))

newest-snoc : (h : List AgentTxn) (t : AgentTxn) → newest (h ++ t ∷ []) ≡ t.ts_ms
newest-snoc [] t = refl
newest-snoc (a ∷ []) t = refl
newest-snoc (a ∷ b ∷ h) t = newest-snoc (b ∷ h) t

drop_while-IsFresh :
    (window ts : ℕ) (dq : List AgentTxn) → IsFresh window ts (drop_while (stale window ts) dq)
drop_while-IsFresh window ts [] = tt
drop_while-IsFresh window ts (t ∷ dq) = elim (Bool-cases (stale window ts t)) [
  | inl e ↦ rw e (drop_while-IsFresh window ts dq)
  | inr e ↦ rw e (ground (arith, e))
]

drop_while-suffix :
    (p : AgentTxn → Bool) (ts : List AgentTxn)
    → (dropped : List AgentTxn) × (ts ≡ dropped ++ drop_while p ts)
drop_while-suffix p [] = ([], refl)
drop_while-suffix p (t ∷ ts) = elim (Bool-cases (p t)) [
  | inl e ↦ let below = drop_while-suffix p ts in (t ∷ below.0, rw e (ap (λ us. t ∷ us) below.1))
  | inr e ↦ ([], rw e refl)
]

trim-suffix :
    (cap : ℕ) (ts : List AgentTxn) → (dropped : List AgentTxn) × (ts ≡ dropped ++ trim cap ts)
unfolding trim
trim-suffix cap [] = ([], refl)
trim-suffix cap (t ∷ ts) = elim (Bool-cases (ltb cap (length (t ∷ ts)))) [
  | inl e ↦ let below = trim-suffix cap ts in (t ∷ below.0, rw e (ap (λ us. t ∷ us) below.1))
  | inr e ↦ ([], rw e refl)
]

length-trim : (cap : ℕ) (ts : List AgentTxn) → length (trim cap ts) ≤ cap
unfolding trim
length-trim cap [] = omega arith
length-trim cap (t ∷ ts) = ground (arith, length-trim cap ts)

trim-cases : (cap : ℕ) (ts : List AgentTxn) → (trim cap ts ≡ ts) ⊎ (length (trim cap ts) ≡ cap)
unfolding trim
trim-cases cap [] = inl refl
trim-cases cap (t ∷ ts) = elim (Bool-cases (ltb cap (length (t ∷ ts)))) [
  | inl e ↦ rw e (inr (full e (trim-cases cap ts)))
  | inr e ↦ rw e (inl refl)
]
  where
    full :
        ltb cap (length (t ∷ ts)) ≡ true
        → (trim cap ts ≡ ts) ⊎ (length (trim cap ts) ≡ cap)
        → length (trim cap ts) ≡ cap
    full e (inl same) =
        ground (arith, e, ap (λ (us : List AgentTxn). length us) same, length-trim cap ts)
    full e (inr done) = done

push-IsWindow :
    (window cap : ℕ) (history dq : List AgentTxn) (t : AgentTxn)
    → IsWindow window cap history dq
    → IsWindow window cap (history ++ t ∷ []) (push window cap dq t)
unfolding push
push-IsWindow window cap history dq t ((dropped, e), short, fresh) =
    let late = drop_while-suffix (stale window t.ts_ms) (dq ++ t ∷ []) in
    let over = trim-suffix cap (drop_while (stale window t.ts_ms) (dq ++ t ∷ [])) in
    (
      (
        dropped ++ (late.0 ++ over.0),
        ap (λ h. h ++ t ∷ []) e
            ∙ append_assoc dropped dq (t ∷ [])
            ∙ ap (λ us. dropped ++ us)
                (late.1 ∙ ap (λ us. late.0 ++ us) over.1 ∙ sym (append_assoc late.0 over.0 _))
            ∙ sym (append_assoc dropped (late.0 ++ over.0) _),
      ),
      length-trim cap _,
      elim (trim-cases cap (drop_while (stale window t.ts_ms) (dq ++ t ∷ []))) [
        | inl same ↦
            inl
              (rw (newest-snoc history t, same) (drop_while-IsFresh window t.ts_ms (dq ++ t ∷ [])))
        | inr full ↦ inr full
      ],
    )

-- The transactions of an agent among the events, after those that it had
abbrev pub history_of : String → List AgentTxn → List (String × AgentTxn) → List AgentTxn
history_of agent h [] = h
history_of agent h ((a, t) ∷ rest) = history_of agent (if a == agent then h ++ t ∷ [] else h) rest

abbrev or_empty : Option (List AgentTxn) → List AgentTxn
or_empty o = elim o [ none ↦ [] | some w ↦ w ]

window_of-append :
    (a agent : String) (t : AgentTxn) (s : AgentStateStore)
    → window_of agent (append a t s) ≡ (
        if a == agent
        then push s.max_window_ms s.max_per_agent (window_of a s) t
        else window_of agent s)
unfolding append
window_of-append a agent t s =
    ap or_empty (lookup-insert a agent _ s.by_agent)
    ∙ elim (a == agent)
        as (λ b.
          or_empty (
            if b
            then some (push s.max_window_ms s.max_per_agent (window_of a s) t)
            else Dict.lookup agent s.by_agent)
          ≡ (if b
              then push s.max_window_ms s.max_per_agent (window_of a s) t
              else window_of agent s)) [ true ↦ refl | false ↦ refl ]

append_all-kept :
    (agent : String) (events : List (String × AgentTxn)) (s : AgentStateStore) (h : List AgentTxn)
    → IsWindow s.max_window_ms s.max_per_agent h (window_of agent s)
    → IsWindow s.max_window_ms s.max_per_agent
        (history_of agent h events)
        (window_of agent (append_all events s))
unfolding append_all append
append_all-kept agent [] s h w = w
append_all-kept agent ((a, t) ∷ rest) s h w = elim (Bool-cases (a == agent)) [
  | inl own ↦ rw own (
      append_all-kept agent rest (append a t s) (h ++ t ∷ []) (
        subst (IsWindow s.max_window_ms s.max_per_agent (h ++ t ∷ []))
          (sym (
            window_of-append a agent t s
            ∙ rw own (
                ap (λ k. push s.max_window_ms s.max_per_agent (window_of k s) t)
                  ((eq_iff a agent).0 own))))
          (push-IsWindow s.max_window_ms s.max_per_agent h (window_of agent s) t w)))
  | inr other ↦ rw other (
      append_all-kept agent rest (append a t s) h (
        subst (IsWindow s.max_window_ms s.max_per_agent h)
          (sym (window_of-append a agent t s ∙ rw other refl)) w))
]

-- After every sequence of appends to a new store, the window of each agent is an end of the agent's
-- transactions in the order in which they came, of at most the cap; with fewer than the cap, the
-- oldest that it keeps is at most the longest window older than the newest.
pub append_all-IsWindow :
    (agent : String) (events : List (String × AgentTxn)) (max_window_s cap : ℕ)
    → IsWindow
        (max_window_s * 1000)
        cap
        (history_of agent [] events)
        (window_of agent (append_all events (new_store max_window_s cap)))
unfolding Dict.lookup
append_all-IsWindow agent events max_window_s cap =
    append_all-kept agent events (new_store max_window_s cap) [] (([], refl), omega arith, inl tt)
