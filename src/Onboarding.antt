-- ===== src/Onboarding.antt =====
-- Onboarding of tenants, backend/onboarding: `TenantStore` and `Tenants` have the tenants and their API
-- keys, `Sources` the snapshots of documents and the evidence that cites them, `Drafts`, `Review` and
-- `Assembly` the drafts, their review and the bundle that is made of them. The proofs are in the other
-- modules.
pub mod TenantStore
pub mod Tenants
pub mod Owners
pub mod Managed
pub mod Lockout
pub mod Revoked
pub mod Sources
pub mod Grounding
pub mod Drafts
pub mod Review
pub mod Citations
pub mod Cited
pub mod Desk
pub mod Assembly
pub mod Declared
mod Tests
mod DraftTests
