-- ===== src/Repair.antt =====
-- repair/manager.py: repair jobs, from their choice of source and target to their execution.
pub mod Queries
pub mod Scheduling
pub mod Execution
pub mod Rounds
pub mod Kept
pub mod Outcomes
pub mod Safety
pub mod Targets
pub mod Prepared
pub mod Progress
pub mod Selected
pub mod Terminates
mod Tests
