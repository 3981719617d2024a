-- ===== src/BusinessRegistry.antt =====
-- The registry of verified businesses
-- (services/business-registry/src/business_registry/registry.py).
pub mod Tables
pub mod InMemory
pub mod Cache
pub mod Cached
pub mod Linked
pub mod Coherent
pub mod Aside
pub mod Runs
