-- ===== src/Payment/Worker.antt =====
-- The worker (services/payment_executor/worker.py).
pub mod Process
pub mod Turn
pub mod Idle
pub mod Recovery
