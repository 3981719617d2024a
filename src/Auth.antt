-- ===== src/Auth.antt =====
-- Roles, tokens and the guards of routes (packages/auth-lib/src/fraudnet/auth).
pub mod Principal
pub mod Routes
pub mod Listed
pub mod Headers
pub mod Checks
pub mod Granted
