-- ===== src/Journal.antt =====
-- What the append-only journals share: the weak hash, the lock, and chains of records.
pub mod Hash
pub mod Lock
pub mod Chain
