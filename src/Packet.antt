-- ===== src/Packet.antt =====
-- compiler/evidence.rs and compiler/packets.rs: a packet is built only if every record in it cites
-- registered sources.
pub mod Validate
pub mod Build
pub mod Sourced
