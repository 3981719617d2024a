-- ===== src/AgentFraud/State.antt =====
-- services/brain-agent-fraud/src/brain_agent_fraud/state.py. A deque is a list with the oldest
-- transaction first.
use fraudnet.Prelude.{
  ℕ, ◌+◌, ◌*◌, String, Bool, Option, List, [], ◌∷◌, ◌++◌, ltb, leb, if◌then◌else◌, length, filter,
  drop_while, map,
}
use fraudnet.Prelude.Dict
use fraudnet.Prelude.Dict.{Dict}

pub record AgentTxn : Type 0 where
  pub txn_id : String
  pub kind : String
  pub counterparty_kind : String
  pub counterparty_id : Option String
  pub amount_minor : ℕ
  pub ts_ms : ℕ
  pub channel : Option String
  pub device_id : Option String

pub record AgentStateStore : Type 0 where
  pub max_window_ms : ℕ
  pub max_per_agent : ℕ
  pub by_agent : Dict (List AgentTxn)

abbrev pub new_store : ℕ → ℕ → AgentStateStore
new_store max_window_s max_per_agent = record {
  max_window_ms = max_window_s * 1000;
  max_per_agent = max_per_agent;
  by_agent = [];
}

-- `dq[0].ts_ms < cutoff` for the cutoff of a transaction at `ts`
abbrev pub stale : ℕ → ℕ → AgentTxn → Bool
stale window ts t = ltb (t.ts_ms + window) ts

-- `while len(dq) > cap: dq.popleft()`
unfoldable pub trim : ℕ → List AgentTxn → List AgentTxn
trim cap [] = []
trim cap (t ∷ ts) = let rest = trim cap ts in if ltb cap (length (t ∷ ts)) then rest else t ∷ ts

-- The deque of one agent after an append
unfoldable pub push : ℕ → ℕ → List AgentTxn → AgentTxn → List AgentTxn
push window cap dq txn = trim cap (drop_while (stale window txn.ts_ms) (dq ++ txn ∷ []))

abbrev pub window_of : String → AgentStateStore → List AgentTxn
window_of agent s = Dict.get_or agent [] s.by_agent

unfoldable pub append : String → AgentTxn → AgentStateStore → AgentStateStore
append agent txn s = record s {
  by_agent =
      Dict.insert agent (push s.max_window_ms s.max_per_agent (window_of agent s) txn) s.by_agent;
}

unfoldable pub view : String → ℕ → ℕ → AgentStateStore → List AgentTxn
view agent window_s now s = filter (λ t. leb now (t.ts_ms + window_s * 1000)) (window_of agent s)

abbrev pub all_agents : AgentStateStore → List String
all_agents s = map (λ e. e.0) s.by_agent

abbrev pub agent_txn_count : String → AgentStateStore → ℕ
agent_txn_count agent s = length (window_of agent s)

-- The appends of a list of events, first to last
unfoldable pub append_all : List (String × AgentTxn) → AgentStateStore → AgentStateStore
append_all [] s = s
append_all ((agent, txn) ∷ rest) s = append_all rest (append agent txn s)
