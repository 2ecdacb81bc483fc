-- ===== src/Wg/Nat/Checked.antt =====
-- The IPv4 header checksum through `translate_out` of src/wg.rs, on every branch.
use tunnel_rs.Base.Bytes.{AllBytes}
use tunnel_rs.Base.Table.{find}
use tunnel_rs.Base.{
  ℕ, ◌≡◌, ap, inl, inr, ◌||◌, not, Option, none, some, List, ◌==◌, nat_eq, Bool-cases, Option-cases,
}
use tunnel_rs.Wg.Address.{IsAddr, addr_eq, routable}
use tunnel_rs.Wg.Nat.Bindings.{open_binding}
use tunnel_rs.Wg.Nat.Alloc.{alloc_port-wg_addr}
use tunnel_rs.Wg.Nat.State.{Nat, alloc_port, fwd_key_eq}
use tunnel_rs.Wg.Nat.Translate.{
  Demux, unusable, stateless, keyed, demux_out, out_key, leaves_forward, out_packet, out_bound,
  out_alloc, out_keyed, out_stateless, out_demuxed, out_parsed, translate_out,
}
use tunnel_rs.Wg.Packet.Headers.{Parsed, parse-Parsed, rewrite_src-Parsed}
use tunnel_rs.Wg.Packet.Repair.{HeaderOk, HeaderOk-rewrite_addr, HeaderOk-rewrite_port}
use tunnel_rs.Wg.Packet.{Ipv4Hdr, src_side, header, parse, rewrite_addr}

module _ (n : Nat) (pkt : List ℕ) (now : ℕ) {h : Ipv4Hdr} (s : Parsed pkt h) (all : AllBytes pkt)
    (good : HeaderOk pkt h.ihl) (v : IsAddr n.wg_addr) where
  addressed : (l4 : Option ℕ) → HeaderOk (rewrite_addr pkt h.ihl src_side h.src n.wg_addr l4) h.ihl
  unfolding header
  addressed l4 =
      rw (ap (λ (z : Ipv4Hdr). z.src) s.read)
        (HeaderOk-rewrite_addr pkt s all src_side n.wg_addr l4 v good)

  HeaderOk-out_packet : (sport port : ℕ) → HeaderOk (out_packet n.wg_addr pkt h sport port) h.ihl
  unfolding out_packet
  HeaderOk-out_packet sport port =
      let q = rewrite_addr pkt h.ihl src_side h.src n.wg_addr (some h.proto) in
      HeaderOk-rewrite_port q src_side h.proto sport port
        (rewrite_src-Parsed pkt s n.wg_addr (some h.proto)) (addressed (some h.proto))

  HeaderOk-out_alloc :
      (sport dport : ℕ)
      → HeaderOk (out_alloc (alloc_port n h.proto) pkt now h sport dport).pkt h.ihl
  unfolding out_alloc out_bound open_binding
  HeaderOk-out_alloc sport dport = elim (Option-cases (alloc_port n h.proto).0) [
    | inl e ↦ rw (e, out_alloc) good
    | inr (p, e) ↦ rw (e, out_alloc, alloc_port-wg_addr n h.proto) (HeaderOk-out_packet sport p)
  ]

  HeaderOk-out_keyed : (sport dport : ℕ) → HeaderOk (out_keyed n pkt now h sport dport).pkt h.ihl
  unfolding out_keyed out_bound
  HeaderOk-out_keyed sport dport = elim (Bool-cases (leaves_forward n.forward h sport)) [
    | inl f ↦ rw f (addressed (some h.proto))
    | inr o ↦ elim (Option-cases (find (out_key h sport dport) n.fwd)) [
      | inl e ↦ rw (o, e, out_keyed) (HeaderOk-out_alloc sport dport)
      | inr (p, e) ↦ rw (o, e, out_keyed) (HeaderOk-out_packet sport p)
    ]
  ]

  HeaderOk-out_demuxed : (d : Demux) → HeaderOk (out_demuxed d n pkt now h).pkt h.ihl
  unfolding out_demuxed out_stateless
  HeaderOk-out_demuxed unusable = good
  HeaderOk-out_demuxed stateless = addressed none
  HeaderOk-out_demuxed (keyed sport dport) = HeaderOk-out_keyed sport dport

  HeaderOk-out_parsed : HeaderOk (out_parsed n pkt now h).pkt h.ihl
  unfolding out_parsed out_stateless
  HeaderOk-out_parsed = elim (Bool-cases (not (routable h.dst) || h.dst == n.wg_addr)) [
    | inl away ↦ rw away good
    | inr on ↦ rw on (elim (Bool-cases (not (h.frag_offset == 0))) [
      | inl later ↦ rw later (addressed none)
      | inr first ↦ rw first (HeaderOk-out_demuxed (demux_out pkt h))
    ])
  ]

-- Whichever branch a packet that parses takes, a header checksum that was right is right in the
-- packet that `translate_out` hands on. (The packet's elements are bytes, and so are those of
-- the tunnel's address.)
pub translate_out-HeaderOk :
    (n : Nat) (pkt : List ℕ) (now : ℕ) (h : Ipv4Hdr)
    → parse pkt ≡ some h
    → AllBytes pkt
    → IsAddr n.wg_addr
    → HeaderOk pkt h.ihl
    → HeaderOk (translate_out n pkt now).pkt h.ihl
unfolding translate_out
translate_out-HeaderOk n pkt now h read all v good =
    rw (read, translate_out) (HeaderOk-out_parsed n pkt now (parse-Parsed pkt read) all good v)
