-- ===== src/Policy.antt =====
-- From authenticated quotes to a policy decision (services/policy_engine), and the register of the
-- user's policy (services/security_kernel).
pub mod Provenance
pub mod Register
pub mod Offers
pub mod Normalization
pub mod Ranking
pub mod Engine
pub mod Every
pub mod Best
pub mod Selection
pub mod Decided
