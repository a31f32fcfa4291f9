-- ===== src/Kernel.antt =====
-- The security kernel (services/security_kernel) with its schemas (packages/schemas).
pub mod Capability
pub mod Transaction
pub mod Canonical
pub mod Digest
pub mod Approval
pub mod Authorization
