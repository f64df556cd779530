-- ===== src/Escalation.antt =====
-- Escalations, backend/escalation/service.py: `Store` has the records and their store, `Needs` says when
-- a decision needs a person, `Service` opens and resolves them. The proofs are in the other modules.
pub mod Store
pub mod Needs
pub mod Service
pub mod Resolving
pub mod Inbox
pub mod Reach
pub mod Once
mod Tests
