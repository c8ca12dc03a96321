-- ===== src/Receipts.antt =====
-- receipts-compiler/src/compiler/receipts.rs: the journal of execution receipts.
pub mod Types
pub mod Artifacts
pub mod Stored
pub mod Verify
pub mod Verified
pub mod Loaded
pub mod Append
pub mod Appended
pub mod Growth
pub mod Grown
