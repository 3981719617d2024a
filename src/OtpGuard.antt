-- ===== src/OtpGuard.antt =====
-- services/brain-otp-guard: OTP texts to subscribers with an active inbound call.
-- `Detector` scores a text, `Registry` keeps the active calls and the suppression windows, `Runner`
-- handles the voice and SMS events.
pub mod Detector
pub mod Registry
pub mod Runner
pub mod Calls
pub mod Windows
