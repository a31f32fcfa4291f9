-- ===== src/Payment/Webhooks.antt =====
-- Webhooks (services/payment_executor/webhooks.py): what a provider reports on its own account.
pub mod Events
pub mod Deliver
pub mod Handle
pub mod Moves
pub mod Suspended
pub mod Duplicates
pub mod Rowwise
