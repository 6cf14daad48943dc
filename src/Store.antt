-- ===== src/Store.antt =====
-- src/symphony/store.py, the transactional job store.
pub mod Schema
pub mod Jobs
pub mod Log
pub mod Transition
pub mod Control
pub mod Lease
pub mod Claim
pub mod Consistent
pub mod Reach
pub mod Samples
pub mod Tests
