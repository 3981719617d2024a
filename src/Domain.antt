-- ===== src/Domain.antt =====
-- Domain names as dotted texts: `split(".")`, `".".join`, `endswith`, and the two ways in which the
-- services match a domain against a set of parent domains: by its labels (stream-features'
-- `_is_suspicious`, action-tier1's allow-list) and by `endswith("." + a)` (url-intel's allow-list).
pub mod Labels
