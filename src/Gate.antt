-- ===== src/Gate.antt =====
-- receipts-compiler/src/compiler/gate.rs: the categorical, fail-closed release gate.
pub mod Run
pub mod Conditions
pub mod Releasable
pub mod Sections
pub mod Release
pub mod Executed
