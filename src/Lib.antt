-- ===== src/Lib.antt =====
-- Verification of Tunnel RS: a full-tunnel VPN client that captures a host's packets on a TUN
-- and sends them out, over a WireGuard exit with its own NAT or over proxied connections.
--
-- The parts, and the files that model them:
--
-- Wg (src/wg.rs). The NAT of the WireGuard exit, `Nat`: every packet of the TUN passes
-- `translate_out` before it is encrypted, every decrypted packet passes `translate_in`, and a
-- timer calls `expire`. Wg/Address: `Ipv4Addr`, `routable`, `tunnel_gateway`. Wg/Checksum:
-- `patch16`, `patch32`, `checksum`; Wg/Checksum/Update has the arithmetic. Wg/Packet:
-- `Ipv4Hdr::parse`, `rewrite_addr`, `rewrite_port` and what they call; its children say what a
-- rewrite does to each field. Wg/Nat/State: the tables, `alloc_port`, `close`, `expire`,
-- `set_forward`. Wg/Nat/Translate: `translate_out`, `translate_in`, `translate_icmp_error`, one
-- function for each part of a body, composed as the source composes them. The other children of
-- Wg/Nat are proofs. Wg/Route: what `route` does with the forwarded port, from
-- `WgConfig::from_settings` to the state of src/state.rs.
--
-- Portmap (src/portmap.rs). The NAT-PMP lease: a thread renews the mapping of a port and tells
-- the driver of the exit by `Event`. Portmap/Message: requests and answers. Portmap/Lease:
-- `exchange`, `map`, `renew`, `lease_loop`, `sleep_interruptibly`.
--
-- Conn (src/conn.rs). Parts of the connection manager of the direct exit: `parse_flow` reads a
-- packet, `on_packet` admits its flow against a `Budget`, `Ready` queues flows with work,
-- `Pending` holds a flow's bytes, and `dispatch` works off the heap of deadlines by `expire`.
-- Conn/Manager has the flow tables with the fields of a flow that decide admission and expiry;
-- what the sockets of a pass have come to is an input. Its children are proofs.
--
-- Inspect (src/inspect.rs). The traffic monitor's labels: `AppProto` and its families, the
-- payload signatures, `classify`, `relabel`, and what `record` does to a flow's label (Totals) and
-- to the table of flows and the counters (Monitor), where a packet without a row at the cap is
-- counted for its protocol alone. Accounts has the proofs.
--
-- Probe (src/probe.rs). The active probes. Probe/Text: texts, `push_escaped`, `clamp_to`, and
-- the errors. Probe/Name: `encode_name`, `read_name`. Probe/Render: `render_rdata` and what it
-- calls. Probe/Message: `build_query`, `parse_response`, `type_name`, `rcode_name`. Probe/Ports:
-- `parse_ports`. Probe/Probing: `probe_port`, `banner_text`, and `service_name` of
-- src/inspect.rs. Probe/Lookup: `nslookup` with its retry over TCP, `RecordType` and reverse
-- names; what the server answers and how the standard library reads an address are inputs.
-- Probe/Intel: `lookup_first`, `intel`, `asn_origin` and `parse_origin`. Probe/Scan: `scan`,
-- whose workers share a cursor and a record of progress; a schedule lists the workers in the
-- order of their turns, and each turn runs up to the next access to what is shared. Their
-- children are proofs. `show_v6` stands for the standard library's notation of an IPv6 address,
-- `network` for what a connection to each port comes to.
--
-- Base holds what these share: tests on numbers, lists, bytes of a packet, hash maps as
-- association lists, literals. Tests runs the model at concrete inputs.
--
-- How the code is written down. A packet is the list of its bytes; a byte, a port or a word is a
-- natural number, with its width written out where the source wraps (`% 2 ^ 32`, one's
-- complement as 65535 - x). Shifts and masks are `/` and `%`. An `Instant` or a `Duration` is a
-- number of nanoseconds. A `&mut self` method returns the new state. Hash maps have no repeated
-- keys, and nothing depends on their order. A text of the probes is the list of its characters,
-- which are ASCII but for the ellipsis.
--
-- Bounds. A checksum folds its carries in two rounds, which is enough below 2 ^ 32. The
-- allocator's loop has one round for each port of its range. The sleep has one round for each
-- slice and one more; `expire` of the connection manager has one for each due deadline and one
-- more, since an entry that it files again is not due. `read_name` has a round for each of 255
-- characters, for each of 32 pointers, and one more, since a label makes the name longer. A
-- decimal has 20 digits, more than any u64. A scan needs two turns for each port and one for
-- each worker.
--
-- Not modelled: sockets, threads, timers and the log; the cryptography of the tunnel; smoltcp
-- and the passes that move a flow's bytes; the host arena, the ticks and the packet parser of
-- the monitor, whose u64 counters are taken as unbounded; the entropy of a payload, which is a
-- parameter because it is a float; the probes' jobs; the dashboard, and the platform's routes, firewall and resolvers.
pub mod Base
pub mod Wg
pub mod Portmap
pub mod Conn
pub mod Inspect
pub mod Probe
pub mod Tests
