-- ===== src/Ledger.antt =====
-- The decision ledger, backend/ledger: `Events` has the events and their hashes, `Store` the store of
-- one process, `Service` the write-ahead orchestration. The proofs are in the other modules.
pub mod Events
pub mod Store
pub mod Chain
pub mod Appends
pub mod History
pub mod Service
pub mod Sealing
pub mod WriteAhead
pub mod Keys
pub mod Origins
pub mod Sample
mod Tests
