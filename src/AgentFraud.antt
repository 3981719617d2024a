-- ===== src/AgentFraud.antt =====
-- The fraud detectors over the transactions of a mobile money agent
-- (services/brain-agent-fraud/src/brain_agent_fraud: state.py and detectors.py).
pub mod State
pub mod Detectors
pub mod Windows
pub mod Counterparties
pub mod Splits
pub mod Cycles
