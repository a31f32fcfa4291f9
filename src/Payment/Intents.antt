-- ===== src/Payment/Intents.antt =====
-- The creation of payment intents (services/payment_executor/intents.py).
pub mod Create
pub mod Examined
pub mod Reuse
pub mod Atomic
pub mod Spending
pub mod Paying
