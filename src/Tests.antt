-- ===== src/Tests.antt =====
-- Concrete runs of the modelled code, and the theorems at them.
mod Keys
mod Signed
mod Received
mod Counted
mod Lanes
mod Codec
mod Records
mod Serde
mod Data
mod Journals
mod Packets
mod Compiled
mod Gated
mod Claimed
mod Conflicting
