-- ===== src/Common.antt =====
-- The shared code (common/): hashing and message formats, and the record shapes.
pub mod Crypto
pub mod Canonical
pub mod Schemas
