-- ===== src/Conflicts.antt =====
-- receipts-compiler/src/compiler/contradictions.rs: records that disagree about one direct source.
pub mod Tokens
pub mod Detect
pub mod Disagree
pub mod Pairs
pub mod Found
