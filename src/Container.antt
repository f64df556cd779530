-- ===== src/Container.antt =====
-- `V1Container` of backend/v1_container.py, which holds the stores and the services over them: the
-- seeding of a reference bundle, `_seed_reference_bundle`. The drawn ids and the times are arguments.
mod Tests
pub mod Seed
