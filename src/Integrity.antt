-- ===== src/Integrity.antt =====
-- integrity/manager.py: stored replicas are verified against the metadata, and a corrupted one is
-- scheduled for repair.
pub mod Verify
pub mod Jobs
pub mod Measured
pub mod Evidence
pub mod Consistent
mod Tests
