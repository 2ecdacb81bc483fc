-- ===== src/Wg.antt =====
-- The WireGuard exit, src/wg.rs: the NAT between the host and the one WireGuard address.
pub mod Address
pub mod Checksum
pub mod Packet
pub mod Nat
pub mod Route
