-- ===== src/Envelope.antt =====
-- receipts-compiler/src/compiler/crypto.rs: executor keys, and envelopes that they sign.
pub mod Types
pub mod Hex
pub mod Keys
pub mod Detached
pub mod Receipt
pub mod Verified
pub mod Drafts
pub mod Signing
pub mod Head
