-- ===== src/Portmap.antt =====
-- The NAT-PMP client, src/portmap.rs.
pub mod Message
pub mod Lease
