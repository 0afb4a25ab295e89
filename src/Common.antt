-- ===== src/Common.antt =====
-- common/: texts, the canonical states, errors and input validation.
pub mod Text
pub mod Constants
pub mod Errors
pub mod Validation
pub mod Ids
