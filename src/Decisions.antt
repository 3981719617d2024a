-- ===== src/Decisions.antt =====
-- services/decisions: the YAML policy and its first-match evaluation (`Policy`), the deduplication
-- store (`Suppression`), the fan-out of a decision (`Dispatcher`), the two consumers (`Runner`) and
-- the hot reload of the policy (`HotReload`). The theorems are in `Matching` (on the evaluation),
-- `Dedup` (on the suppression), `Delivery` (on the topics) and `Reloading` (on the reload).
pub mod Policy
pub mod Suppression
pub mod Dispatcher
pub mod Runner
pub mod HotReload
pub mod Matching
pub mod Dedup
pub mod Delivery
pub mod Reloading
