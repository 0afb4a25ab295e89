-- ===== src/Metadata/Consistency/Preserved.antt =====
-- Every request keeps the invariant, and so does every run.
pub mod Objects
pub mod Nodes
pub mod Replicas
pub mod Batch
pub mod Runs
