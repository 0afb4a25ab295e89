-- ===== src/Recovery.antt =====
-- recovery/manager.py: a node that comes back has its replicas verified before it is HEALTHY.
pub mod Reconcile
pub mod Consistent
pub mod Partition
pub mod Counted
pub mod Rejoin
mod Tests
