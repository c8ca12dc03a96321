-- ===== src/Policy.antt =====
-- The two small policies: what may enter a packet, and what may be promoted.
pub mod Trust
pub mod Promotion
