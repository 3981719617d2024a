-- ===== src/Federation.antt =====
-- packages/federation: the fusion of the hashed subgraphs of partner operators (`Merge`), who saw a
-- node (`Operators`), the scores of a hash (`Scores`), the entry of a hash (`Entries`), and what the fused nodes say (`Sightings`).
pub mod Merge
pub mod Operators
pub mod Scores
pub mod Entries
pub mod Sightings
