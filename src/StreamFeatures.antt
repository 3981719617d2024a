-- ===== src/StreamFeatures.antt =====
-- services/stream-features/src/stream_features/pipeline.py: the per-key sliding windows over the
-- voice, sms, data and MoMo events, and the features that are read from them
-- (packages/feature-client/src/fraudnet/features/snapshot.py). `State` holds the state, its pruning
-- and the features, `Feed` the four handlers.
pub mod State
pub mod Feed
pub mod Window
pub mod Run
pub mod Bounds
pub mod History
pub mod Exact
pub mod Lateness
pub mod Ranks
pub mod Templates
