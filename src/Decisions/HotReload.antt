-- ===== src/Decisions/HotReload.antt =====
-- services/decisions/src/decisions/hot_reload.py: a reload parses the directory, validates the
-- policy and swaps it. What `load_all` returns (`none` for an exception), the clock and the
-- directory's files are inputs of a reload. The callbacks are logged effects and are not
-- modelled, and the lock makes a reload one step.
use fraudnet.Prelude.{
  ℕ, zero, suc, String, Bool, true, not, ◌&&◌, Option, none, some, List, [], ◌∷◌, ◌++◌, length, ltb,
  ◌==◌, if◌then◌else◌,
}
use fraudnet.Prelude.StringSet
use fraudnet.Prelude.Int.{is_neg}
use fraudnet.Decisions.Policy.{Policy, Rule, fingerprint}
use fraudnet.Decisions.Runner.{Service}

pub record PolicyVersion : Type 0 where
  pub id : String
  pub version : String
  pub fingerprint : String
  pub rule_count : ℕ
  pub loaded_at_ms : ℕ
  pub source_files : List String

-- The reloader holds the runner and its dispatcher.
pub record PolicyHotReloader (R : Type 0) : Type 0 where
  pub service : Service R
  pub history : List PolicyVersion

-- What one reload finds.
pub record Load : Type 0 where
  pub parsed : Option Policy
  pub now_ms : ℕ
  pub files : List String

-- `deque(maxlen=cap).append`
unfoldable pub append_capped {ℓ} : {A : Type ℓ} → ℕ → List A → A → List A
append_capped zero h v = []
append_capped (suc cap) [] v = v ∷ []
append_capped (suc cap) (x ∷ h) v =
    if ltb cap (length (x ∷ h)) then h ++ v ∷ [] else x ∷ h ++ v ∷ []

-- the loop of `_validate` over the rules, with the ids seen so far
unfoldable pub validate_rules : List String → List Rule → Bool
validate_rules seen [] = true
validate_rules seen (r ∷ rs) =
    not (r.id == "")
    && not (StringSet.member r.id seen)
    && not (r.action == "")
    && not (is_neg r.suppression_window_s)
    && validate_rules (StringSet.add r.id seen) rs

-- `_validate`: true where it does not raise
unfoldable pub validate : Policy → Bool
validate p = not (p.id == "") && not (p.version == "") && validate_rules [] p.rules

-- `_swap`
unfoldable pub swap : {R : Type 0} → Policy → Service R → Service R
swap p s = record s { policy = p; dispatcher_policy = p }

-- `load_all` and `_validate`, with an exception of either as `none`
unfoldable pub loaded : Load → Option Policy
loaded l = elim l.parsed [ none ↦ none | some p ↦ if validate p then some p else none ]

-- `_to_version`
unfoldable pub to_version : (String → String) → Policy → ℕ → List String → PolicyVersion
to_version sha256 p now_ms files = record {
  id = p.id;
  version = p.version;
  fingerprint = fingerprint sha256 p;
  rule_count = length p.rules;
  loaded_at_ms = now_ms;
  source_files = files;
}

module _ {R : Type 0} (sha256 : String → String) (history_cap : ℕ) where
  unfoldable pub record_initial :
      PolicyHotReloader R → Policy → ℕ → List String → PolicyHotReloader R
  record_initial h p now_ms files = record h {
    history = append_capped history_cap h.history (to_version sha256 p now_ms files);
  }

  unfoldable pub reload_now :
      PolicyHotReloader R → Load → Option PolicyVersion × PolicyHotReloader R
  reload_now h l = elim (loaded l) [
    | none ↦ (none, h)
    | some p ↦
        if fingerprint sha256 p == fingerprint sha256 h.service.dispatcher_policy
        then (none, h)
        else (
          some (to_version sha256 p l.now_ms l.files),
          record {
            service = swap p h.service;
            history = append_capped history_cap h.history (to_version sha256 p l.now_ms l.files);
          },
        )
  ]

  unfoldable pub reload_all : PolicyHotReloader R → List Load → PolicyHotReloader R
  reload_all h [] = h
  reload_all h (l ∷ ls) = reload_all (reload_now h l).1 ls
