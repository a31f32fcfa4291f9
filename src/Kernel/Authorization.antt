-- ===== src/Kernel/Authorization.antt =====
-- The authorization lifecycle (services/security_kernel/authorization.py): issue, prove,
-- activate, consume, revoke, expire.
pub mod Rows
pub mod Classify
pub mod Lifecycle
pub mod Proof
pub mod Ruling
pub mod Origin
pub mod Evolution
pub mod Operations
pub mod Transitions
pub mod Approving
pub mod Verdict
pub mod History
pub mod Binding
pub mod Refusals
pub mod Answers
