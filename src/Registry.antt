-- ===== src/Registry.antt =====
-- The registry of bundles, backend/bundle/lifecycle.py: `Store` has the records and their store,
-- `Lifecycle` the drafts, the publish gate and rollback; `Diff` is backend/bundle/diff.py. The proofs
-- are in the other modules.
pub mod Store
pub mod Lifecycle
pub mod Gate
pub mod Live
pub mod Keyed
pub mod Rollback
pub mod Content
pub mod Immutable
pub mod Same
pub mod Diff
pub mod Changes
mod Tests
mod DiffTests
