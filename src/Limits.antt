-- ===== src/Limits.antt =====
-- The timed limit marks of packages/core/src: account identities, reset provenance, and the
-- recovery latch.
pub mod Accounts
pub mod Provenance
pub mod Recovery
pub mod Policy
pub mod Refusal
