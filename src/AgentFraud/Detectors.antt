-- ===== src/AgentFraud/Detectors.antt =====
-- services/brain-agent-fraud/src/brain_agent_fraud/detectors.py: commission farming, split
-- transactions, phantom customers and collusion. A score is in hundredths. `ratio` is the rounded
-- quotient of two numbers, `prior_txn_count` and `cohort_for` are the lookups of the source's
-- protocols.
use fraudnet.Prelude.{
  ℕ, ◌+◌, ◌-◌, ◌*◌, min, max, String, Bool, ◌&&◌, ◌||◌, Option, none, some, List, [], ◌∷◌, ltb, leb,
  ◌==◌, if◌then◌else◌, length, truthy,
}
use fraudnet.Prelude.Members.{sort_by}
use fraudnet.Prelude.Dict.{Dict}
use fraudnet.Prelude.Groups.{Groups, append_to}
use fraudnet.Prelude.StringSet
use fraudnet.Schemas.{Primitive, str, int}
use fraudnet.AgentFraud.State.{AgentTxn}

pub record Detection : Type 0 where
  pub signal_kind : String
  pub score : ℕ
  pub evidence : Dict Primitive
  pub boost_features : List String
  pub severity : String

-- A group by counterparty of the transactions that pass a test and have one.
unfoldable pub group_at :
    (AgentTxn → Bool) → AgentTxn → Option String → Groups String AgentTxn → Groups String AgentTxn
group_at p t none d = d
group_at p t (some cp) d = if p t then append_to ◌==◌ cp t d else d

unfoldable pub by_counterparty :
    (AgentTxn → Bool) → List AgentTxn → Groups String AgentTxn → Groups String AgentTxn
by_counterparty p [] d = d
by_counterparty p (t ∷ ts) d = by_counterparty p ts (group_at p t (truthy t.counterparty_id) d)

abbrev pub is_cash : AgentTxn → Bool
is_cash t = t.kind == "cash_in" || t.kind == "cash_out"

-- A cash-in that a cash-out follows within ten minutes
abbrev pub is_cycle : AgentTxn → AgentTxn → Bool
is_cycle a b =
    a.kind == "cash_in"
    && (b.kind == "cash_out" && (ltb a.ts_ms b.ts_ms && leb b.ts_ms (a.ts_ms + 10 * 60 * 1000)))

abbrev pub add_cycle : AgentTxn → AgentTxn → ℕ × ℕ → ℕ × ℕ
add_cycle a b (n, amount) = (n + 1, amount + (a.amount_minor + b.amount_minor))

-- The `while` loop: the cycles and their amount
unfoldable pub cycles : List AgentTxn → ℕ × ℕ
cycles [] = (0, 0)
cycles (a ∷ []) = (0, 0)
cycles (a ∷ (b ∷ rest)) =
    let taken = add_cycle a b (cycles rest) in
    let next = cycles (b ∷ rest) in if is_cycle a b then taken else next

abbrev pub by_time : List AgentTxn → List AgentTxn
by_time = sort_by (λ y x. ltb y.ts_ms x.ts_ms)

unfoldable pub all_cycles : Groups String AgentTxn → ℕ × ℕ
all_cycles [] = (0, 0)
all_cycles ((cp, ts) ∷ d) =
    let here = cycles (by_time ts) in let rest = all_cycles d in (here.0 + rest.0, here.1 + rest.1)

unfoldable pub detect_commission_farming : List AgentTxn → ℕ → Option Detection
detect_commission_farming txns min_pairs =
    let found = all_cycles (by_counterparty is_cash txns []) in
    let n = found.0 in
    if ltb n min_pairs
    then none
    else some (record {
      signal_kind = "agent.commission_farming";
      score = min 99 (60 + 5 * (n - min_pairs));
      evidence =
          ("cycles", int n)
          ∷ ("min_pairs", int min_pairs)
          ∷ ("cycle_amount_minor", int found.1)
          ∷ ("txn_count", int (length txns))
          ∷ [];
      boost_features = "cycles" ∷ "cycle_amount_minor" ∷ [];
      severity = "high";
    })

abbrev pub total : List AgentTxn → ℕ
total [] = 0
total (t ∷ ts) = t.amount_minor + total ts

-- A piece small enough to stay below the threshold of a report
abbrev pub is_piece : ℕ → AgentTxn → Bool
is_piece max_piece t =
    (t.kind == "cash_out" || t.kind == "p2p_transfer") && ltb t.amount_minor max_piece

-- Do the pieces of one counterparty count?
abbrev pub is_split : ℕ → ℕ → List AgentTxn → Bool
is_split threshold min_pieces ts = leb min_pieces (length ts) && leb threshold (total ts)

pub record Best : Type 0 where
  pub pieces : ℕ
  pub total_minor : ℕ
  pub counterparty : Option String

-- The loop over the groups for the one with the most pieces
unfoldable pub best_split : ℕ → ℕ → Best → Groups String AgentTxn → Best
best_split threshold min_pieces best [] = best
best_split threshold min_pieces best ((cp, ts) ∷ d) =
    best_split threshold min_pieces
      (if is_split threshold min_pieces ts && ltb best.pieces (length ts)
        then record { pieces = length ts; total_minor = total ts; counterparty = some cp }
        else best)
      d

unfoldable pub split_of : ℕ → ℕ → ℕ → Best → Option String → Option Detection
split_of threshold max_piece min_pieces best none = none
split_of threshold max_piece min_pieces best (some cp) = some (record {
  signal_kind = "agent.split_txn";
  score = min 95 (70 + 3 * (best.pieces - min_pieces));
  evidence =
      ("pieces", int best.pieces)
      ∷ ("total_minor", int best.total_minor)
      ∷ ("threshold_minor", int threshold)
      ∷ ("max_piece_minor", int max_piece)
      ∷ [];
  boost_features = "pieces" ∷ "total_minor" ∷ [];
  severity = "high";
})

abbrev pub no_best : Best
no_best = record { pieces = 0; total_minor = 0; counterparty = none }

unfoldable pub detect_split_txn : List AgentTxn → ℕ → ℕ → ℕ → Option Detection
detect_split_txn txns threshold max_piece min_pieces =
    let best =
      best_split threshold min_pieces no_best (by_counterparty (is_piece max_piece) txns []) in
    split_of threshold max_piece min_pieces best best.counterparty

module _ (prior_txn_count : String → ℕ) (ratio : ℕ → ℕ → Primitive) where
  -- The phantoms and the counterparties seen
  unfoldable pub meet : Option String → ℕ × List String → ℕ × List String
  meet none (phantom, seen) = (phantom, seen)
  meet (some cp) (phantom, seen) =
      if StringSet.member cp seen
      then (phantom, seen)
      else (if ltb 0 (prior_txn_count cp) then phantom else phantom + 1, StringSet.add cp seen)

  unfoldable pub phantoms : List AgentTxn → ℕ × List String → ℕ × List String
  phantoms [] s = s
  phantoms (t ∷ ts) s = phantoms ts (meet (truthy t.counterparty_id) s)

  unfoldable pub detect_phantom_customer : List AgentTxn → ℕ → Option Detection
  detect_phantom_customer txns min_phantom_count =
      let (phantom, seen) = phantoms txns (0, []) in
      if ltb phantom min_phantom_count
      then none
      else some (record {
        signal_kind = "agent.phantom_customer";
        score = min 95 (55 + 5 * phantom);
        evidence =
            ("phantom_counterparties", int phantom)
            ∷ ("total_counterparties", int (length seen))
            ∷ ("phantom_ratio", ratio phantom (max 1 (length seen)))
            ∷ [];
        boost_features = "phantom_counterparties" ∷ "phantom_ratio" ∷ [];
        severity = if ltb (6 * max 1 (length seen)) (10 * phantom) then "high" else "medium";
      })

pub record CollusionCohort : Type 0 where
  pub cohort_id : String
  pub agents : List String
  pub shared_devices : List String
  pub sequential_count : ℕ

unfoldable pub collusion_of : ℕ → ℕ → Option CollusionCohort → Option Detection
collusion_of txn_count min_cohort_size none = none
collusion_of txn_count min_cohort_size (some c) =
    if ltb (length c.agents) min_cohort_size
    then none
    else some (record {
      signal_kind = "agent.collusion";
      score = min 95 (
          55
          + 7 * (length c.agents - min_cohort_size)
          + 5 * length c.shared_devices
          + 4 * min 10 c.sequential_count);
      evidence =
          ("cohort_id", str c.cohort_id)
          ∷ ("cohort_size", int (length c.agents))
          ∷ ("shared_device_count", int (length c.shared_devices))
          ∷ ("sequential_txn_count", int c.sequential_count)
          ∷ ("txn_count", int txn_count)
          ∷ [];
      boost_features = "cohort_size" ∷ "shared_device_count" ∷ [];
      severity = "high";
    })

unfoldable pub detect_collusion :
    (String → Option CollusionCohort) → String → List AgentTxn → ℕ → Option Detection
detect_collusion cohort_for agent txns min_cohort_size =
    collusion_of (length txns) min_cohort_size (cohort_for agent)
