-- ===== src/BrainGraph.antt =====
-- The snapshot of the fraud graph and the motifs found in it
-- (services/brain-graph/src/brain_graph: subgraph.py and motifs.py).
pub mod Subgraph
pub mod Indices
pub mod Motifs
pub mod Fingerprints
pub mod Chains
pub mod Walks
pub mod Mules
pub mod Kept
pub mod Found
pub mod Detected
pub mod Devices
pub mod Shared
pub mod Rows
pub mod Once
pub mod Snapshot
