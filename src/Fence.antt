-- ===== src/Fence.antt =====
-- packages/opencode/src/core/version-fence.ts: whether the migration of the account pool may run.
pub mod Versions
pub mod Precedence
pub mod Migration
pub mod Looking
pub mod Opening
pub mod Safety
pub mod Clearing
mod Tests
