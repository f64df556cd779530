-- ===== src/Replay.antt =====
-- Replay of a candidate bundle, backend/replay: `Runs` has the runs and their store, `Cases` the golden
-- cases, `Scoring` and `Engine` the run. The proofs are in the other modules.
pub mod Runs
pub mod Cases
pub mod Scoring
pub mod Engine
pub mod Recount
pub mod Baseline
pub mod Sample
mod Tests
