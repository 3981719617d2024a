-- ===== src/CustomerOtp.antt =====
-- The one-time codes of customers (services/api-customer/src/api_customer/otp.py).
pub mod Adapters
pub mod OneShot
