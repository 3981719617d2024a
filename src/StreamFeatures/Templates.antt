-- ===== src/StreamFeatures/Templates.antt =====
-- The top template of a number: the tally of the hashes in its window, and its first largest entry.
use fraudnet.Prelude.{
  ℕ, suc, ◌+◌, ◌≤◌, ◌≡◌, refl, sym, ap, ◌∙◌, ◌⊎◌, inl, inr, String, true, false, Option, none, some,
  List, [], ◌∷◌, count, arith, ltb, ◌==◌, eq_iff, eq_refl, some_eq, if◌then◌else◌, Bool-cases,
}
use fraudnet.Prelude.Dict
use fraudnet.Prelude.Dict.{Dict, lookup-insert}
use fraudnet.StreamFeatures.State.{
  NumberState, tally, top_of, top_template, compute_number_features,
}

-- How often a hash stands in the window.
abbrev pub occurrences : String → List (ℕ × String) → ℕ
occurrences h = count (λ e. e.1 == h)

-- No key stands twice.
IsDistinct : Dict ℕ → Type 0
IsDistinct [] = Unit
IsDistinct ((k, _) ∷ d) = (Dict.lookup k d ≡ none) × IsDistinct d

insert-IsDistinct :
    (k : String) (v : ℕ) (d : Dict ℕ) → IsDistinct d → IsDistinct (Dict.insert k v d)
unfolding IsDistinct Dict.insert Dict.lookup
insert-IsDistinct k v [] h = (refl, tt)
insert-IsDistinct k v ((j, w) ∷ d) h = elim (Bool-cases (j == k)) [
  | inl same ↦ rw same (rw (← (eq_iff j k).0 same) h.0, h.1)
  | inr other ↦ rw other (rw (lookup-insert, eq_comm k j other) h.0, insert-IsDistinct k v d h.1)
]
  where
    eq_comm : (a b : String) → (b == a) ≡ false → (a == b) ≡ false
    eq_comm a b e = ground (arith, eq_iff a b, eq_iff b a)

tally-IsDistinct : (d : Dict ℕ) (es : List (ℕ × String)) → IsDistinct d → IsDistinct (tally d es)
tally-IsDistinct d [] h = h
tally-IsDistinct d ((_, k) ∷ es) h =
    tally-IsDistinct (Dict.insert k (suc (Dict.get_or k 0 d)) d) es (insert-IsDistinct k _ d h)

abbrev of_count : Option ℕ → ℕ
of_count none = 0
of_count (some n) = n

-- The tally counts.
lookup-tally :
    (h : String) (d : Dict ℕ) (es : List (ℕ × String))
    → of_count (Dict.lookup h (tally d es)) ≡ of_count (Dict.lookup h d) + occurrences h es
lookup-tally h d [] = omega arith
lookup-tally h d ((t, k) ∷ es) =
    lookup-tally h (Dict.insert k (suc (Dict.get_or k 0 d)) d) es
    ∙ rw lookup-insert (ground (arith, eq_iff k h))

-- The largest count so far.
top_count : ℕ → Dict ℕ → ℕ
top_count n [] = n
top_count n ((_, m) ∷ d) = top_count (if ltb n m then m else n) d

top_count-ge : (n : ℕ) (d : Dict ℕ) → n ≤ top_count n d
unfolding top_count
top_count-ge n [] = omega arith
top_count-ge n ((k, m) ∷ d) = ground (arith, top_count-ge (if ltb n m then m else n) d)

lookup-le-top_count : (h : String) (n : ℕ) (d : Dict ℕ) → of_count (Dict.lookup h d) ≤ top_count n d
unfolding top_count Dict.lookup
lookup-le-top_count h n [] = omega arith
lookup-le-top_count h n ((k, m) ∷ d) =
    let n' : ℕ = if ltb n m then m else n in
    ground (arith, top_count-ge n' d, lookup-le-top_count h n' d)

-- The entry `(k, m)` in front of a dictionary without `k`, when it is the best so far.
met :
    (k : String) (m : ℕ) (best : String) (n : ℕ) (d : Dict ℕ)
    → Dict.lookup k d ≡ none
    → ((top_of k m d ≡ k) × (top_count m d ≡ m))
      ⊎ (Dict.lookup (top_of k m d) d ≡ some (top_count m d))
    → (if k == top_of k m d then some m else Dict.lookup (top_of k m d) d) ≡ some (top_count m d)
met k m best n d h (inl e) = rw (e.0, eq_refl) (ap some (sym e.1))
met k m best n d h (inr e) = ground (arith, h, eq_iff k (top_of k m d))

-- What `max` returns is the entry it began with, or one of the dictionary with the largest count.
top_of_cases :
    (best : String) (n : ℕ) (d : Dict ℕ)
    → IsDistinct d
    → ((top_of best n d ≡ best) × (top_count n d ≡ n))
      ⊎ (Dict.lookup (top_of best n d) d ≡ some (top_count n d))
unfolding top_count Dict.lookup IsDistinct
top_of_cases best n [] h = inl (refl, refl)
top_of_cases best n ((k, m) ∷ d) h =
    elim (ltb n m)
      as (λ b.
        ((top_of (if b then k else best) (if b then m else n) d ≡ best)
          × (top_count (if b then m else n) d ≡ n))
        ⊎ ((if k == top_of (if b then k else best) (if b then m else n) d
              then some m
              else Dict.lookup (top_of (if b then k else best) (if b then m else n) d) d)
            ≡ some (top_count (if b then m else n) d))) [
              | true ↦ inr (met k m k m d h.0 (top_of_cases k m d h.1))
              | false ↦ kept (top_of_cases best n d h.1)
            ]
  where
    kept :
        ((top_of best n d ≡ best) × (top_count n d ≡ n))
          ⊎ (Dict.lookup (top_of best n d) d ≡ some (top_count n d))
        → ((top_of best n d ≡ best) × (top_count n d ≡ n))
          ⊎ ((if k == top_of best n d then some m else Dict.lookup (top_of best n d) d)
              ≡ some (top_count n d))
    kept (inl e) = inl e
    kept (inr e) = inr (ground (arith, h.0, eq_iff k (top_of best n d)))

top_count-tally :
    (best : String) (n : ℕ) (d : Dict ℕ)
    → IsDistinct ((best, n) ∷ d)
    → of_count (Dict.lookup (top_of best n d) ((best, n) ∷ d)) ≡ top_count n d
unfolding Dict.lookup IsDistinct
top_count-tally best n d h = ap of_count (met best n best n d h.0 (top_of_cases best n d h.1))

top_of-largest :
    (best h : String) (n : ℕ) (d : Dict ℕ)
    → of_count (Dict.lookup h ((best, n) ∷ d)) ≤ top_count n d
unfolding Dict.lookup
top_of-largest best h n d = ground (arith, top_count-ge n d, lookup-le-top_count h n d)

top_template-largest :
    (counts : Dict ℕ) (t h : String)
    → IsDistinct counts
    → top_template counts ≡ some t
    → of_count (Dict.lookup h counts) ≤ of_count (Dict.lookup t counts)
top_template-largest [] t h k e = absurd (cc)
top_template-largest ((best, n) ∷ d) t h k e =
    rw (← some_eq e, top_count-tally best n d k) (top_of-largest best h n d)

-- The template that a number's features name stands in its window at least as often as any other.
pub sms_template_top-largest :
    (m : String) (ns : NumberState) (now : ℕ) (t h : String)
    → (compute_number_features m ns now).sms_template_top ≡ some t
    → occurrences h ns.sms_template_hashes ≤ occurrences t ns.sms_template_hashes
unfolding compute_number_features Dict.lookup IsDistinct
sms_template_top-largest m ns now t h e =
    let es = ns.sms_template_hashes in
    omega (
      arith,
      lookup-tally h [] es,
      lookup-tally t [] es,
      top_template-largest (tally [] es) t h (tally-IsDistinct [] es tt) e,
    )
