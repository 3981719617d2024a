-- ===== src/BrainGraph/Kept.antt =====
-- The filter over the chains found, for `_walk_chains` of
-- services/brain-graph/src/brain_graph/motifs.py.
use mathlib.Core.List.{Memᴰ}
use mathlib.Core.List.Memᴰ
use fraudnet.Prelude.{
  ◌≤◌, ◌≡◌, ◌∙◌, refl, sym, Bool, true, false, ◌⊎◌, List, [], ◌∷◌, ◌++◌, eq_iff, arith,
  if◌then◌else◌, Bool-cases, inl, inr, ltb, length, All, All-append,
}
use fraudnet.Prelude.Members.{any-Mem, All-Mem, take_all, place, All-place}
use fraudnet.BrainGraph.Chains.{Chain, chain_eq, covered, keep_chains, sort_by_len}

chain_eq_sound : (a b : Chain) → chain_eq a b ≡ true → a ≡ b
chain_eq_sound [] [] h = refl
chain_eq_sound [] (b ∷ bs) h = cc
chain_eq_sound (a ∷ as') [] h = cc
chain_eq_sound (a ∷ as') (b ∷ bs) h = ground (arith, eq_iff a b, chain_eq_sound as' bs)

pub keep_chains-All {κ} :
    (P : Chain → Type κ) (keep cs : List Chain)
    → All P keep
    → All P cs
    → All P (keep_chains keep cs)
unfolding keep_chains
keep_chains-All P keep [] hk hc = hk
keep_chains-All P keep (c ∷ cs) hk hc =
    keep_chains-All P (if covered keep c then keep else keep ++ c ∷ []) cs
      (elim (covered keep c) as (λ b. All P (if b then keep else keep ++ c ∷ [])) [
        | true ↦ hk
        | false ↦ All-append P keep (c ∷ []) hk (hc.0, tt)
      ])
      hc.1

-- None is longer than one before it.
abbrev Descending : List Chain → Type 0
Descending [] = Unit
Descending (c ∷ cs) = All (λ (d : Chain). length d ≤ length c) cs × Descending cs

abbrev longer : Chain → Chain → Bool
longer d c = ltb (length c) (length d)

All-longer :
    (c d : Chain) (cs : List Chain)
    → length c ≤ length d
    → All (λ (b : Chain). length b ≤ length c) cs
    → All (λ (b : Chain). length b ≤ length d) cs
All-longer c d [] h hs = tt
All-longer c d (b ∷ bs) h hs = (omega arith, All-longer c d bs h hs.1)

place-Descending : (c : Chain) (cs : List Chain) → Descending cs → Descending (place longer c cs)
place-Descending c [] h = (tt, tt)
place-Descending c (d ∷ ds) h = elim (Bool-cases (longer d c)) [
  | inl e ↦ rw e (
    All-place (λ (b : Chain). length b ≤ length d) longer c ds (ground arith) h.0,
    place-Descending c ds h.1,
  )
  | inr e ↦
      let short : length d ≤ length c = ground arith in
      rw e ((short, All-longer d c ds short h.0), h)
]

sort_by_len-Descending : (cs : List Chain) → Descending (sort_by_len cs)
sort_by_len-Descending [] = tt
sort_by_len-Descending (c ∷ cs) = place-Descending c (sort_by_len cs) (sort_by_len-Descending cs)

-- What is left is no longer than what is kept.
abbrev Shorter : List Chain → List Chain → Type 0
Shorter keep cs = All (λ (k : Chain). All (λ (d : Chain). length d ≤ length k) cs) keep

Shorter-tail :
    (keep : List Chain) (c : Chain) (cs : List Chain) → Shorter keep (c ∷ cs) → Shorter keep cs
Shorter-tail [] c cs h = tt
Shorter-tail (k ∷ ks) c cs h = (h.0.1, Shorter-tail ks c cs h.1)

covered-Mem :
    (keep : List Chain) (c : Chain) (cs : List Chain)
    → Shorter keep (c ∷ cs)
    → covered keep c ≡ true
    → Memᴰ c keep
covered-Mem keep c cs short h =
    let k = any-Mem _ keep h in
    let le : length c ≤ length k.0 = (All-Mem _ keep short k.1).0 in
    Memᴰ.cast (sym (take_all (length k.0) c le) ∙ chain_eq_sound _ k.0 k.2) k.1

keep_chains_mem :
    (keep cs : List Chain) {c : Chain}
    → Shorter keep cs
    → Descending cs
    → Memᴰ c keep ⊎ Memᴰ c cs
    → Memᴰ c (keep_chains keep cs)
unfolding keep_chains
keep_chains_mem keep [] short desc (inl m) = m
keep_chains_mem keep [] short desc (inr m) = absurd (Memᴰ.not-nil m)
keep_chains_mem keep (d ∷ ds) {c} short desc m = elim (Bool-cases (covered keep d)) [
  | inl e ↦ rw e (keep_chains_mem keep ds (Shorter-tail keep d ds short) desc.1 (old e m))
  | inr e ↦ rw e (
      keep_chains_mem (keep ++ d ∷ []) ds
        (All-append _ keep (d ∷ []) (Shorter-tail keep d ds short) (desc.0, tt)) desc.1 (new m))
]
  where
    old : covered keep d ≡ true → Memᴰ c keep ⊎ Memᴰ c (d ∷ ds) → Memᴰ c keep ⊎ Memᴰ c ds
    old e (inl k) = inl k
    old e (inr (Memᴰ.head same)) = inl (Memᴰ.cast same (covered-Mem keep d ds short e))
    old e (inr (Memᴰ.tail k)) = inr k

    new : Memᴰ c keep ⊎ Memᴰ c (d ∷ ds) → Memᴰ c (keep ++ d ∷ []) ⊎ Memᴰ c ds
    new (inl k) = inl (Memᴰ.append_left (d ∷ []) k)
    new (inr (Memᴰ.head same)) = inl (Memᴰ.append_right keep (Memᴰ.head same))
    new (inr (Memᴰ.tail k)) = inr k

-- The filter drops copies alone.
pub keep_chains-sort_by_len :
    (out : List Chain) {c : Chain}
    → Memᴰ c (sort_by_len out)
    → Memᴰ c (keep_chains [] (sort_by_len out))
keep_chains-sort_by_len out m =
    keep_chains_mem [] (sort_by_len out) tt (sort_by_len-Descending out) (inr m)
