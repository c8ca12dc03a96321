-- ===== src/Public.antt =====
-- receipts-compiler/src/compiler/privacy.rs and compiler/signals.rs: what is counted for readers.
pub mod Counts
pub mod Conserved
pub mod Signals
