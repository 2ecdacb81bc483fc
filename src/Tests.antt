-- ===== src/Tests.antt =====
-- Runs of the model at concrete inputs.
mod Nat
mod Portmap
mod Conn
mod Inspect
mod Probe
