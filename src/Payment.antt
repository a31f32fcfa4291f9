-- ===== src/Payment.antt =====
-- The payment executor (services/payment_executor, packages/schemas/payment.py).
pub mod State
pub mod Rows
pub mod Held
pub mod Outbox
pub mod Executor
pub mod Reconciliation
pub mod Webhooks
pub mod Tables
pub mod Intents
pub mod Worker
pub mod Workers
