-- ===== src/Metadata.antt =====
-- metadata/: the tables of the control plane and the operations of `MetadataManager`.
pub mod Models
pub mod Checks
pub mod Session
pub mod Triples
pub mod Objects
pub mod Nodes
pub mod Replicas
pub mod Commands
pub mod Versions
pub mod Consistency
pub mod Conflicts
pub mod Membership
pub mod Lifecycle
mod Tests
