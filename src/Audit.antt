-- ===== src/Audit.antt =====
-- The audit ledger: the hash chain, its appends and its verification
-- (services/audit_ledger/ledger.py, hashing.py and verify.py).
pub mod Rows
pub mod Verify
pub mod Chain
pub mod Order
pub mod Contents
pub mod Appends
