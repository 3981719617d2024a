-- ===== src/Kafka.antt =====
-- packages/kafka-client: the dispatch of a consumed message, its dead letters and its commit
-- (`Consumer`), what one message does
-- (`Passed`), and what a run does with every message (`Progress`).
pub mod Consumer
pub mod Passed
pub mod Progress
