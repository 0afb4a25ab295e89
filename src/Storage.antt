-- ===== src/Storage.antt =====
-- storage/storage_engine.py: how an object is cut into chunk files.
pub mod Chunks
pub mod Layout
pub mod Counted
mod Tests
