-- ===== src/Tests.antt =====
-- Runs of the model on concrete data, and instances of its theorems.
mod Samples
mod Texts
mod Services
mod Payments
mod Queues
mod Settling
mod Purchases
mod Turns
mod Decisions
mod Ledger
