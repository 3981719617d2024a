-- ===== src/UrlIntel.antt =====
-- services/url-intel: the blocklist (`Blocklist`), and what its operations keep (`Guard`) and answer
-- (`Verdicts`).
pub mod Blocklist
pub mod Guard
pub mod Verdicts
