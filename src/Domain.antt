-- ===== src/Domain.antt =====
-- The vocabulary of packages/schemas/domain.py, the exceptions of the services, and the entries
-- that a service asks the audit ledger to append.
mod Codes
mod Events
mod Failures
pub use Codes.*
pub use Events.*
pub use Failures.*
