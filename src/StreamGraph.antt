-- ===== src/StreamGraph.antt =====
-- services/stream-graph: an event is translated to graph operations (`Translate`), which go to the
-- graph through the buffered writer of packages/graph-client (`Writer`) and, one by one, to the
-- control topic (`Runner`).
pub mod Translate
pub mod Closed
pub mod Endpoints
pub mod Writer
pub mod Accounting
pub mod Runner
pub mod Control
