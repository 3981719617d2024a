-- ===== src/Decisions/Matching.antt =====
-- The evaluation of services/decisions/src/decisions/policy.py against the meaning of the
-- predicates and of the order of the rules.
use fraudnet.Prelude.{
  ℕ, ◌≤◌, ◌≡◌, ◌⊎◌, inl, inr, refl, sym, subst, ap, String, Bool, true, false, Option, none, some,
  List, [], ◌∷◌, ◌++◌, arith, eq_iff, if◌then◌else◌, All, Bool-cases, Option-cases,
}
use fraudnet.Prelude.Dict
use fraudnet.Prelude.Dict.{Dict}
use fraudnet.Schemas.{Primitive, SignalEvent, Severity, entity_value}
use fraudnet.Decisions.Policy.{
  Match, Rule, Policy, DispatchOutcome, is_truthy, severity_in_list, text_differs, severity_misses,
  score_below, all_truthy, matches_signal, outcome_of, default_outcome, first_match,
  evaluate_signal,
}

-- A key of the evidence with a truthy value.
abbrev pub IsPresent : Dict Primitive → String → Type 0
IsPresent evidence k = (v : Primitive) × (Dict.lookup k evidence ≡ some v) × (is_truthy v ≡ true)

-- Every predicate that the rule states holds of the signal.
pub record Matches (m : Match) (sig : SignalEvent) : Type 0 where
  pub no_motif : m.motif ≡ none
  pub kind : (k : String) → m.signal_kind ≡ some k → sig.signal_kind ≡ k
  pub severity :
      (ss : List Severity) → m.severity_in ≡ some ss → severity_in_list sig.severity ss ≡ true
  pub score : (bound : ℕ) → m.score_gte ≡ some bound → bound ≤ sig.score.value
  pub subject : (k : String) → m.subject_kind ≡ some k → entity_value sig.subject.kind ≡ k
  pub evidence : All (IsPresent sig.evidence) m.evidence_truthy

text_differs_sound :
    (o : Option String) (s k : String) → text_differs o s ≡ false → o ≡ some k → s ≡ k
text_differs_sound o s k h e = ground (arith, eq_iff s k)

text_differs_complete :
    (o : Option String) (s : String)
    → ((k : String) → o ≡ some k → s ≡ k)
    → text_differs o s ≡ false
text_differs_complete none s h = refl
text_differs_complete (some w) s h = ground (arith, eq_iff s w, h w refl)

severity_misses_complete :
    (o : Option (List Severity)) (s : Severity)
    → ((ss : List Severity) → o ≡ some ss → severity_in_list s ss ≡ true)
    → severity_misses o s ≡ false
severity_misses_complete none s h = refl
severity_misses_complete (some ss) s h = ground (arith, h ss refl)

score_below_complete :
    (o : Option ℕ) (v : ℕ) → ((bound : ℕ) → o ≡ some bound → bound ≤ v) → score_below o v ≡ false
score_below_complete none v h = refl
score_below_complete (some b) v h = ground (arith, h b refl)

all_truthy_sound :
    (evidence : Dict Primitive) (ks : List String)
    → all_truthy evidence ks ≡ true
    → All (IsPresent evidence) ks
unfolding all_truthy
all_truthy_sound evidence [] h = tt
all_truthy_sound evidence (k ∷ ks) h = elim (Option-cases (Dict.lookup k evidence)) [
  | inl e ↦ ground arith
  | inr (v, e) ↦ ((v, e, ground arith), all_truthy_sound evidence ks (ground arith))
]

all_truthy_complete :
    (evidence : Dict Primitive) (ks : List String)
    → All (IsPresent evidence) ks
    → all_truthy evidence ks ≡ true
unfolding all_truthy
all_truthy_complete evidence [] h = refl
all_truthy_complete evidence (k ∷ ks) ((v, e, t), h) =
    ground (arith, all_truthy_complete evidence ks h)

pub matches_signal_sound :
    (m : Match) (sig : SignalEvent) → matches_signal m sig ≡ true → Matches m sig
unfolding matches_signal
matches_signal_sound m sig h = record {
  no_motif = ground arith;
  kind = λ k e. text_differs_sound m.signal_kind sig.signal_kind k (ground arith) e;
  severity = λ ss e. ground arith;
  score = λ b e. ground arith;
  subject =
      λ k e. text_differs_sound m.subject_kind (entity_value sig.subject.kind) k (ground arith) e;
  evidence = all_truthy_sound sig.evidence m.evidence_truthy (ground arith);
}

pub matches_signal_complete :
    (m : Match) (sig : SignalEvent) → Matches m sig → matches_signal m sig ≡ true
unfolding matches_signal
matches_signal_complete m sig h =
    rw
      (
        h.no_motif,
        text_differs_complete m.signal_kind sig.signal_kind h.kind,
        severity_misses_complete m.severity_in sig.severity h.severity,
        score_below_complete m.score_gte sig.score.value h.score,
        text_differs_complete m.subject_kind (entity_value sig.subject.kind) h.subject,
        all_truthy_complete sig.evidence m.evidence_truthy h.evidence,
      )
      refl

-- Outcome of the first rule that holds, with none before it, or the default where none holds.
abbrev pub IsFirst : (Match → Type 0) → List Rule → DispatchOutcome → DispatchOutcome → Type 0
IsFirst Holds rules fallback out =
    ((pre : List Rule) × (r : Rule) × (post : List Rule) × (rules ≡ pre ++ r ∷ post)
      × All (λ q. ¬ Holds q.matcher) pre
      × Holds r.matcher
      × (out ≡ outcome_of r))
    ⊎ (All (λ q. ¬ Holds q.matcher) rules × (out ≡ fallback))

IsFirst-skip :
    (Holds : Match → Type 0) (r : Rule) (rules : List Rule) (fallback out : DispatchOutcome)
    → ¬ Holds r.matcher
    → IsFirst Holds rules fallback out
    → IsFirst Holds (r ∷ rules) fallback out
IsFirst-skip Holds r rules fallback out fails (inl (pre, q, post, e, none_before, holds, o)) =
    inl (r ∷ pre, q, post, ap (◌∷◌ r) e, (fails, none_before), holds, o)
IsFirst-skip Holds r rules fallback out fails (inr (none_holds, o)) = inr ((fails, none_holds), o)

first_match-IsFirst :
    (Holds : Match → Type 0) (test : Match → Bool)
    → ((m : Match) → test m ≡ true → Holds m)
    → ((m : Match) → Holds m → test m ≡ true)
    → (fallback : DispatchOutcome) (rules : List Rule)
    → IsFirst Holds rules fallback (first_match test fallback rules)
unfolding first_match
first_match-IsFirst Holds test sound complete fallback [] = inr (tt, refl)
first_match-IsFirst Holds test sound complete fallback (r ∷ rules) =
    elim (Bool-cases (test r.matcher)) [
      | inl passes ↦ inl (
        [],
        r,
        rules,
        refl,
        tt,
        sound r.matcher passes,
        ap (λ b. if b then outcome_of r else first_match test fallback rules) passes,
      )
      | inr fails ↦
          subst (IsFirst Holds (r ∷ rules) fallback)
            (sym (ap (λ b. if b then outcome_of r else first_match test fallback rules) fails))
            (IsFirst-skip Holds r rules fallback (first_match test fallback rules)
              (λ h. cc (complete r.matcher h, fails))
              (first_match-IsFirst Holds test sound complete fallback rules))
    ]

-- The outcome of a signal is that of the first rule all of whose stated predicates hold, no rule
-- before it having this property; it is the default where no rule has it.
pub evaluate_signal-IsFirst :
    (p : Policy) (sig : SignalEvent)
    → IsFirst (λ m. Matches m sig) p.rules (default_outcome p) (evaluate_signal p sig)
unfolding evaluate_signal
evaluate_signal-IsFirst p sig =
    first_match-IsFirst (λ m. Matches m sig) (λ m. matches_signal m sig)
      (λ m. matches_signal_sound m sig) (λ m. matches_signal_complete m sig) (default_outcome p)
      p.rules
