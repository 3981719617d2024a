-- ===== src/Decisions/Reloading.antt =====
-- Sequences of reloads of services/decisions/src/decisions/hot_reload.py, and what a reload
-- compares.
use fraudnet.Prelude.{
  ℕ, zero, suc, ◌≤◌, ◌≡◌, ◌⊎◌, subst, refl, sym, String, true, false, Option, none, some, List, [],
  ◌∷◌, ◌++◌, map, length, length-append, arith, ltb, ◌==◌, eq_refl, if◌then◌else◌, Bool-cases,
  Option-cases, inl, inr,
}
use fraudnet.Prelude.Text.{join}
use fraudnet.Decisions.Policy.{Policy, fingerprint, rule_line}
use fraudnet.Decisions.HotReload.{
  PolicyHotReloader, Load, append_capped, validate, to_version, swap, loaded, reload_now,
  reload_all,
}

-- The newest entry of the history.
abbrev pub newest {ℓ} : {A : Type ℓ} → List A → Option A
newest [] = none
newest (x ∷ []) = some x
newest (x ∷ y ∷ ys) = newest (y ∷ ys)

newest-append {ℓ} : {A : Type ℓ} (xs : List A) (v : A) → newest (xs ++ v ∷ []) ≡ some v
newest-append [] v = refl
newest-append (x ∷ []) v = refl
newest-append (x ∷ y ∷ ys) v = newest-append (y ∷ ys) v

newest-append_capped {ℓ} :
    {A : Type ℓ} (cap : ℕ) (h : List A) (v : A) → newest (append_capped (suc cap) h v) ≡ some v
unfolding append_capped
newest-append_capped cap [] v = refl
newest-append_capped cap (x ∷ h) v =
    elim (ltb cap (length (x ∷ h)))
      as (λ b. newest (if b then h ++ v ∷ [] else x ∷ h ++ v ∷ []) ≡ some v) [
        | true ↦ newest-append h v
        | false ↦ newest-append (x ∷ h) v
      ]

length-append_capped {ℓ} :
    {A : Type ℓ} (cap : ℕ) (h : List A) (v : A)
    → length h ≤ cap
    → length (append_capped cap h v) ≤ cap
unfolding append_capped
length-append_capped zero h v b = omega arith
length-append_capped (suc cap) [] v b = omega arith
length-append_capped (suc cap) (x ∷ h) v b =
    ground (arith, length-append h (v ∷ []), length-append (x ∷ h) (v ∷ []))

-- The runner and the dispatcher hold one policy, it is valid, and the newest entry of the history,
-- which is within its cap, is of that policy.
pub record IsLive {R : Type 0} (sha256 : String → String) (cap : ℕ) (h : PolicyHotReloader R)
    : Type 0 where
  pub agree : h.service.policy ≡ h.service.dispatcher_policy
  pub valid : validate h.service.policy ≡ true
  pub bounded : length h.history ≤ cap
  pub recorded :
      (at : ℕ) × (files : List String) × (newest h.history
        ≡ some (to_version sha256 h.service.policy at files))

loaded-validate : (l : Load) (p : Policy) → loaded l ≡ some p → validate p ≡ true
unfolding loaded
loaded-validate l p e = ground arith

loaded-parsed : (l : Load) (q p : Policy) → loaded l ≡ some q → l.parsed ≡ some p → q ≡ p
unfolding loaded
loaded-parsed l q p e f = ground arith

module _ {R : Type 0} (sha256 : String → String) (cap : ℕ) where
  -- The state after a policy was swapped in.
  abbrev swapped : PolicyHotReloader R → Load → Policy → PolicyHotReloader R
  swapped h l p = record {
    service = swap p h.service;
    history = append_capped cap h.history (to_version sha256 p l.now_ms l.files);
  }

  -- A reload changes nothing, or swaps in the policy it loaded.
  reload_now-cases :
      (h : PolicyHotReloader R) (l : Load)
      → ((reload_now sha256 cap h l).1 ≡ h)
        ⊎ ((p : Policy) × (loaded l ≡ some p) × ((reload_now sha256 cap h l).1 ≡ swapped h l p))
  unfolding reload_now
  reload_now-cases h l = elim (Option-cases (loaded l)) [
    | inl e ↦ inl (rw (reload_now, e) refl)
    | inr (p, e) ↦
        elim (Bool-cases (fingerprint sha256 p == fingerprint sha256 h.service.dispatcher_policy)) [
          | inl same ↦ inl (rw (reload_now, e, same) refl)
          | inr differs ↦ inr (p, e, rw (reload_now, e, differs) refl)
        ]
  ]

module _ {R : Type 0} (sha256 : String → String) (cap : ℕ) where
  reload_now-IsLive :
      (h : PolicyHotReloader R) (l : Load)
      → IsLive sha256 (suc cap) h
      → IsLive sha256 (suc cap) (reload_now sha256 (suc cap) h l).1
  unfolding swap
  reload_now-IsLive h l live = elim (reload_now-cases sha256 (suc cap) h l) [
    | inl same ↦ subst (IsLive sha256 (suc cap)) (sym same) live
    | inr (p, e, now) ↦ subst (IsLive sha256 (suc cap)) (sym now) (record {
      agree = refl;
      valid = loaded-validate l p e;
      bounded = length-append_capped (suc cap) h.history _ live.bounded;
      recorded = (l.now_ms, l.files, newest-append_capped cap h.history _);
    })
  ]

  -- From a state that holds one valid policy for the runner and the dispatcher, with its version the
  -- newest entry of a history within its cap of one entry or more, every sequence of reloads, with
  -- failing and invalid loads among them, ends in such a state.
  pub reload_all-IsLive :
      (h : PolicyHotReloader R) (ls : List Load)
      → IsLive sha256 (suc cap) h
      → IsLive sha256 (suc cap) (reload_all sha256 (suc cap) h ls)
  unfolding reload_all
  reload_all-IsLive h [] live = live
  reload_all-IsLive h (l ∷ ls) live =
      reload_all-IsLive (reload_now sha256 (suc cap) h l).1 ls (reload_now-IsLive h l live)

  -- A load whose rules have, in order, the ids, actions, tiers and windows of the policy in force
  -- changes neither the policy nor the history, whatever its predicates, its default, its id and its
  -- version are.
  pub reload_now_unseen :
      (h : PolicyHotReloader R) (l : Load) (p : Policy)
      → l.parsed ≡ some p
      → map rule_line p.rules ≡ map rule_line h.service.dispatcher_policy.rules
      → reload_now sha256 cap h l ≡ (none, h)
  unfolding reload_now loaded fingerprint
  reload_now_unseen h l p e same = elim (Option-cases (loaded l)) [
    | inl f ↦ rw (reload_now, f) refl
    | inr (q, f) ↦
        rw
          (
            reload_now,
            f,
            loaded-parsed l q p f e,
            same,
            eq_refl (sha256 (join "\n" (map rule_line h.service.dispatcher_policy.rules))),
          )
          refl
  ]
