-- ===== src/Probe.antt =====
-- The active probes of src/probe.rs.
pub mod Text
pub mod Name
pub mod Render
pub mod Message
pub mod Ports
pub mod Scan
pub mod Probing
pub mod Lookup
pub mod Intel
