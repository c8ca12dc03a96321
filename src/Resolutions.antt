-- ===== src/Resolutions.antt =====
-- receipts-compiler/src/compiler/resolutions.rs: the hash-chained journal of adjudications.
pub mod Types
pub mod Store
pub mod Append
pub mod Failed
pub mod Tampering
