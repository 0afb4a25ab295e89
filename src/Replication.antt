-- ===== src/Replication.antt =====
-- replication/manager.py: a prepared version is written to its nodes, verified on each, and
-- committed when enough of them hold it.
pub mod Policy
pub mod Writes
pub mod Commit
pub mod Kept
pub mod Counts
pub mod Recorded
pub mod Owned
pub mod Quorum
pub mod Untouched
pub mod Refused
pub mod Verified
mod Tests
