-- ===== src/Schema.antt =====
-- The schema of a policy bundle, backend/bundle/schema.py: `Types` has the records, `Validate` the
-- validators of the single models, `Integrity` the checks of a bundle and `Acyclic` its search for
-- override cycles. The proofs are in the other modules.
pub mod Types
pub mod Validate
pub mod Integrity
pub mod Acyclic
pub mod Finishing
pub mod Search
pub mod Ranked
pub mod Fuel
pub mod Total
pub mod Complete
pub mod Unique
pub mod Checked
pub mod Declarations
mod Tests
unfoldable pub use Types.*
