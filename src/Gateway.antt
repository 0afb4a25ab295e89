-- ===== src/Gateway.antt =====
-- gateway/service.py: what the gateway's routes ask of the metadata and of the storage nodes.
pub mod Reads
pub mod Served
pub mod Deletes
pub mod Covered
pub mod Cleared
pub mod Uploads
pub mod Consistent
mod Tests
