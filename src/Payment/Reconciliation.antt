-- ===== src/Payment/Reconciliation.antt =====
-- Reconciliation (services/payment_executor/reconciliation.py): an uncertain payment is settled by
-- what the provider holds for it, and nothing is ever created.
pub mod Branches
pub mod Reconcile
pub mod Quiet
pub mod Barred
pub mod Fenced
pub mod Ambiguous
