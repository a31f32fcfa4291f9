-- ===== src/Payment/Executor.antt =====
-- The payment executor (services/payment_executor/executor.py): how a provider's answer reaches a
-- payment intent, and when a payment may be created at all.
pub mod Session
pub mod Apply
pub mod Uncertain
pub mod Recover
pub mod Create
pub mod Dispatch
pub mod Same
pub mod Moves
pub mod Keeping
pub mod Recovering
pub mod Creating
pub mod Fence
