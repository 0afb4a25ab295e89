-- ===== src/Health.antt =====
-- health/: membership of storage nodes, and the heartbeats that they send.
pub mod Registry
pub mod Payload
pub mod Heartbeats
pub mod Driven
pub mod Candidates
pub mod Detector
pub mod Demotion
pub mod Scans
pub mod Recovered
mod Tests
