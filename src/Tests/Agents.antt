-- ===== src/Tests/Agents.antt =====
-- The transactions of one agent, for services/brain-agent-fraud/src/brain_agent_fraud.
use fraudnet.Prelude.{ℕ, ◌*◌, String, none, some, List, [], ◌∷◌, arith}
use fraudnet.AgentFraud.State.{AgentTxn, new_store, append_all, window_of}
use fraudnet.AgentFraud.Windows.{IsWindow, history_of, append_all-IsWindow}
use fraudnet.AgentFraud.Detectors.{cycles, detect_split_txn}
use fraudnet.AgentFraud.Splits.{Reports, detect_split_txn-Reports}
use fraudnet.AgentFraud.Cycles.{IsCounted, cycles-IsCounted}

abbrev txn : String → ℕ → ℕ → AgentTxn
txn kind amount ts = record {
  txn_id = "t";
  kind = kind;
  counterparty_kind = "wallet";
  counterparty_id = some "c1";
  amount_minor = amount;
  ts_ms = ts;
  channel = none;
  device_id = none;
}

abbrev pieces : List AgentTxn
pieces = txn "cash_out" 40 1 ∷ txn "p2p_transfer" 50 2 ∷ txn "cash_out" 60 3 ∷ []

detect_split_txn-Reports_example : Reports pieces 100 70 3 (detect_split_txn pieces 100 70 3)
detect_split_txn-Reports_example = detect_split_txn-Reports pieces 100 70 3 (omega arith)

cycles-IsCounted_example :
    IsCounted
      (txn "cash_in" 40 1 ∷ txn "cash_out" 40 5 ∷ [])
      (cycles (txn "cash_in" 40 1 ∷ txn "cash_out" 40 5 ∷ []))
cycles-IsCounted_example = cycles-IsCounted (txn "cash_in" 40 1 ∷ txn "cash_out" 40 5 ∷ [])

abbrev events : List (String × AgentTxn)
events =
    ("a1", txn "cash_in" 40 1) ∷ ("a2", txn "cash_in" 50 2) ∷ ("a1", txn "cash_out" 40 5000) ∷ []

append_all-IsWindow_example :
    IsWindow
      (2 * 1000)
      3
      (history_of "a1" [] events)
      (window_of "a1" (append_all events (new_store 2 3)))
append_all-IsWindow_example = append_all-IsWindow "a1" events 2 3
