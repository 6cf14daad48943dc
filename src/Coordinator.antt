-- ===== src/Coordinator.antt =====
-- src/symphony/coordinator.py.
pub mod Exec
pub mod Agent
pub mod Host
pub mod Runs
pub mod Turn
pub mod Intake
pub mod Command
pub mod Recovery
pub mod Result
pub mod Reconcile
pub mod Review
pub mod Run
pub mod Samples
pub mod Tests
