-- ===== src/Decisions/Policy.antt =====
-- services/decisions/src/decisions/policy.py: rules, their predicates and the first-match
-- evaluation. `sha256` stands for hashlib's digest of a text, in hexadecimal and cut to 16 digits.
use fraudnet.Prelude.{
  ℕ, String, Bool, true, false, not, ◌||◌, Option, none, some, List, [], ◌∷◌, map, ltb, ◌==◌,
  is_some, if◌then◌else◌,
}
use fraudnet.Prelude.Dict
use fraudnet.Prelude.Dict.{Dict}
use fraudnet.Prelude.Int.{ℤ}
use fraudnet.Prelude.Text.{concat, join, str_int}
use fraudnet.Schemas.{
  Severity, LatencyTier, Primitive, SignalEvent, MotifDetected, RiskScore, entity_value, tier_value,
  severity_eq,
}

-- `_Match`; an absent predicate is `none`
pub record Match : Type 0 where
  pub signal_kind : Option String
  pub motif : Option String
  pub severity_in : Option (List Severity)
  pub score_gte : Option ℕ
  pub subject_kind : Option String
  pub evidence_truthy : List String

pub record Rule : Type 0 where
  pub id : String
  pub matcher : Match
  pub action : String
  pub tier : LatencyTier
  pub suppression_window_s : ℤ

pub record Default : Type 0 where
  pub action : String
  pub tier : LatencyTier
  pub suppression_window_s : ℤ

pub record Policy : Type 0 where
  pub id : String
  pub version : String
  pub rules : List Rule
  pub default : Default

pub record DispatchOutcome : Type 0 where
  pub rule_id : String
  pub action : String
  pub tier : LatencyTier
  pub suppression_window_s : ℤ

-- `bool(v)`
abbrev pub is_truthy : Primitive → Bool
is_truthy (Primitive.str s) = not (s == "")
is_truthy (Primitive.int n) = ltb 0 n
is_truthy (Primitive.float x) = ltb 0 x
is_truthy (Primitive.bool b) = b
is_truthy (Primitive.negative_int n) = true
is_truthy (Primitive.negative_float x) = true

-- `bool(evidence.get(k))`
abbrev pub evidence_holds : Dict Primitive → String → Bool
evidence_holds evidence k = elim (Dict.lookup k evidence) [ none ↦ false | some v ↦ is_truthy v ]

-- `sig.severity in severity_in`
abbrev pub severity_in_list : Severity → List Severity → Bool
severity_in_list s [] = false
severity_in_list s (t ∷ ts) = severity_eq t s || severity_in_list s ts

-- `want is not None and got != want`
abbrev pub text_differs : Option String → String → Bool
text_differs none got = false
text_differs (some want) got = not (got == want)

abbrev pub severity_misses : Option (List Severity) → Severity → Bool
severity_misses none s = false
severity_misses (some ss) s = not (severity_in_list s ss)

abbrev pub score_below : Option ℕ → ℕ → Bool
score_below none value = false
score_below (some bound) value = ltb value bound

-- the loop over `evidence_truthy`
unfoldable pub all_truthy : Dict Primitive → List String → Bool
all_truthy evidence [] = true
all_truthy evidence (k ∷ ks) = if evidence_holds evidence k then all_truthy evidence ks else false

unfoldable pub matches_signal : Match → SignalEvent → Bool
matches_signal m sig =
    if is_some m.motif
    then false
    else if text_differs m.signal_kind sig.signal_kind
    then false
    else if severity_misses m.severity_in sig.severity
    then false
    else if score_below m.score_gte sig.score.value
    then false
    else if text_differs m.subject_kind (entity_value sig.subject.kind)
    then false
    else all_truthy sig.evidence m.evidence_truthy

-- `score_gte is not None and (m.score is None or m.score.value < score_gte)`
abbrev pub motif_score_fails : Option ℕ → Option RiskScore → Bool
motif_score_fails none s = false
motif_score_fails (some bound) none = true
motif_score_fails (some bound) (some s) = ltb s.value bound

abbrev pub is_empty {ℓ} : {A : Type ℓ} → List A → Bool
is_empty [] = true
is_empty (_ ∷ _) = false

unfoldable pub matches_motif : Match → MotifDetected → Bool
matches_motif m ev =
    if is_some m.signal_kind
    then false
    else if text_differs m.motif ev.motif
    then false
    else if motif_score_fails m.score_gte ev.score
    then false
    else is_empty m.evidence_truthy

abbrev pub outcome_of : Rule → DispatchOutcome
outcome_of r = record {
  rule_id = r.id;
  action = r.action;
  tier = r.tier;
  suppression_window_s = r.suppression_window_s;
}

abbrev pub default_outcome : Policy → DispatchOutcome
default_outcome p = record {
  rule_id = "__default__";
  action = p.default.action;
  tier = p.default.tier;
  suppression_window_s = p.default.suppression_window_s;
}

-- `for rule in policy.rules: if rule.match.matches(...): return ...`, then the default
unfoldable pub first_match : (Match → Bool) → DispatchOutcome → List Rule → DispatchOutcome
first_match test fallback [] = fallback
first_match test fallback (r ∷ rs) =
    if test r.matcher then outcome_of r else first_match test fallback rs

unfoldable pub evaluate_signal : Policy → SignalEvent → DispatchOutcome
evaluate_signal p sig = first_match (λ m. matches_signal m sig) (default_outcome p) p.rules

unfoldable pub evaluate_motif : Policy → MotifDetected → DispatchOutcome
evaluate_motif p ev = first_match (λ m. matches_motif m ev) (default_outcome p) p.rules

-- `f"{r.id}:{r.action}:{r.tier.value}:{r.suppression_window_s}"`
abbrev pub rule_line : Rule → String
rule_line r =
    concat
      (r.id ∷ ":" ∷ r.action ∷ ":" ∷ tier_value r.tier ∷ ":" ∷ str_int r.suppression_window_s ∷ [])

unfoldable pub fingerprint : (String → String) → Policy → String
fingerprint sha256 p = sha256 (join "\n" (map rule_line p.rules))
