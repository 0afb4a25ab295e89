-- ===== src/Maintenance.antt =====
-- What the managers of repair, rebalancing, integrity and recovery share.
pub mod Clients
pub mod Rows
pub mod Fixture
