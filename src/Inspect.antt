-- ===== src/Inspect.antt =====
-- The packet classifier of src/inspect.rs.
pub mod AppProto
pub mod Family
pub mod Signature
pub mod Classify
pub mod Totals
pub mod Monitor
pub mod Accounts
pub mod Sticky
