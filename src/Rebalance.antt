-- ===== src/Rebalance.antt =====
-- rebalance/manager.py: a replica is moved to another node, copied before it is deleted, and a node
-- is drained.
pub mod Queries
pub mod Migration
pub mod Drain
pub mod Kept
pub mod Safety
pub mod Copies
pub mod Factor
pub mod Consistent
mod Tests
