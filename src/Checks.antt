-- ===== src/Checks.antt =====
-- receipts-compiler/src/compiler/checks.rs: check definitions, the journal of their attempts, and
-- what the attempts say of a claim.
pub mod Types
pub mod Current
pub mod Fresh
pub mod Applicable
pub mod Backed
pub mod Attempts
pub mod History
pub mod Changes
pub mod Bounded
pub mod Manifest
pub mod Valid
