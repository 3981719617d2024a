-- ===== src/Watchlist.antt =====
-- The matching of names against a watch list
-- (services/aml-watchlist/src/aml_watchlist/matching.py).
pub mod Similarity
pub mod Soundex
pub mod Flags
pub mod Range
pub mod Codes
