-- ===== src/Wg/Nat.antt =====
-- `Nat` of src/wg.rs: the state of the NAT44, the port allocator, and the translation of
-- packets in both directions. A method takes the state and returns the new one; an instant is
-- a number of nanoseconds, and `duration_since` stops at 0.
pub mod State
pub mod Alloc
pub mod Tables
pub mod Bindings
pub mod Expiry
pub mod Translate
pub mod Valid
pub mod Sent
pub mod RoundTrip
pub mod Checked
pub mod Forwarding
