-- ===== src/Evaluator.antt =====
-- The decision function, backend/runtime/evaluator.py. `Types` has its records, `Facts` the typing of
-- the facts, `Conditions` one policy's evaluation, `Winner` the precedence among the policies that
-- match, `Decide` the whole function. The proofs are in the other modules.
pub mod Types
pub mod Facts
pub mod Conditions
pub mod Winner
pub mod Decide
pub mod Narrowing
pub mod Overriding
pub mod Selection
pub mod Precedence
pub mod Results
pub mod Strictness
pub mod Run
pub mod Ruling
pub mod Matching
pub mod Citation
pub mod Typed
pub mod Totality
pub mod Answers
pub mod Sample
mod Tests
