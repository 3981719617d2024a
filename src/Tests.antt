-- ===== src/Tests.antt =====
-- Concrete events, policies and domains on which the theorems are applied, by component.
mod Features
mod Deciding
mod Graph
mod Otp
mod Urls
mod Peers
mod Messages
mod Blocking
mod Motifs
mod Agents
mod Names
mod Snapshots
mod Format
mod Businesses
mod Codes
mod Guards
