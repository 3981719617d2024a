-- ===== src/ActionTier1.antt =====
-- services/action-tier1: the actuators of the inline tier (`Actuators`), when one acts
-- (`Guards`), and what the OTP hold is told of a decision (`OtpHold`).
pub mod Actuators
pub mod Guards
pub mod OtpHold
