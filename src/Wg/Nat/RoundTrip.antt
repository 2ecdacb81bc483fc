-- ===== src/Wg/Nat/RoundTrip.antt =====
-- What leaves through the NAT of src/wg.rs, and that a reply finds its way back.
use tunnel_rs.Base.Bytes.{u16_at}
use tunnel_rs.Base.Table.{find}
use tunnel_rs.Base.{
  ℕ, ◌+◌, ◌<◌, ◌≤◌, ◌≡◌, ◌∙◌, refl, ap, inl, inr, true, false, ◌&&◌, Option, none, some, List,
  length, ◌==◌, nat_eq, arith,
}
use tunnel_rs.Wg.Address.{Ipv4Addr, addr_eq}
use tunnel_rs.Wg.Nat.State.{
  Binding, Forward, Nat, translate, fwd_key_eq, rev_key_eq, port_lo, port_hi,
}
use tunnel_rs.Wg.Nat.Tables.{IsValid, rev_key}
use tunnel_rs.Wg.Nat.Translate.{
  has_rst, leaves_forward, out_packet, translate_out, forward_for, in_packet, in_keyed,
  translate_in,
}
use tunnel_rs.Wg.Packet.Fields.{length-rewrite_addr, byte-rewrite_addr_ne}
use tunnel_rs.Wg.Packet.Headers.{
  Parsed, parse-Parsed, Parsed-parse, rewrite_src-Parsed, rewrite_dst-Parsed, rewrite_port-Parsed,
}
use tunnel_rs.Wg.Packet.Ports.{length-rewrite_port, u16_at-rewrite_port}
use tunnel_rs.Wg.Packet.{
  Side, Ipv4Hdr, src_side, dst_side, parse, proto_tcp, has_ports, rewrite_addr, rewrite_port,
}
use tunnel_rs.Wg.Nat.Sent.{
  side_addr-le16, u16_at-rewrite_port_other, Unshadowed, Outgoing, Reply, Outgoing-keyed,
  Reply-keyed, binding_of, Sent, Sent-out_keyed,
}

module _ (pkt : List ℕ) (h : Ipv4Hdr) (parsed : Parsed pkt h) (room : h.ihl + 8 ≤ length pkt)
    (ports : has_ports h.proto ≡ true) (a : Ipv4Addr) where
  -- An address rewrite leaves both ports.
  pub u16_at-rewrite_addr_ports :
      (side : Side) (old : Ipv4Addr) (k : ℕ)
      → k < 3
      → u16_at (rewrite_addr pkt h.ihl side old a (some h.proto)) (h.ihl + k)
        ≡ u16_at pkt (h.ihl + k)
  unfolding u16_at
  u16_at-rewrite_addr_ports side old k lt =
      let keep = byte-rewrite_addr_ne pkt h.ihl side old a (some h.proto) in
      let wide : 20 ≤ length pkt = omega arith in
      ground (
        arith,
        keep (h.ihl + k) wide (omega arith) (inr (omega arith))
            (inr (omega (arith, side_addr-le16 side))),
        keep (h.ihl + k + 1) wide (omega arith) (inr (omega arith))
            (inr (omega (arith, side_addr-le16 side))),
      )

  -- The packet that leaves carries the tunnel's address and the allocated port; its
  -- destination is unchanged.
  out_packet_lem :
      (port : ℕ)
      → let q = out_packet a pkt h (u16_at pkt h.ihl) port in
        Parsed q (record h { src = a })
        × (u16_at q h.ihl ≡ port)
        × (u16_at q (h.ihl + 2) ≡ u16_at pkt (h.ihl + 2))
        × (length q ≡ length pkt)
  unfolding out_packet
  out_packet_lem port =
      let q = rewrite_addr pkt h.ihl src_side h.src a (some h.proto) in
      let sport = u16_at pkt h.ihl in
      let shift : h.ihl + 0 ≡ h.ihl = omega arith in
      let size = length-rewrite_addr pkt h.ihl src_side h.src a (some h.proto) in
      (
        rewrite_port-Parsed q src_side h.proto sport port
            (rewrite_src-Parsed pkt parsed a (some h.proto)),
        rw shift at (
            u16_at-rewrite_port q h.ihl sport port src_side h.proto ports (omega arith)
              (u16_at-rewrite_addr_ports src_side h.src 0 (omega arith) ∙ ap (u16_at pkt) shift)),
        u16_at-rewrite_port_other q h.ihl sport port src_side h.proto ports 2 (omega arith)
              (inr (omega arith))
            ∙ u16_at-rewrite_addr_ports src_side h.src 2 (omega arith),
        length-rewrite_port q h.ihl sport port src_side h.proto ∙ size,
      )

  -- The packet that comes in carries the host's address and port; its source is unchanged.
  in_packet_lem :
      (port hport : ℕ)
      → u16_at pkt (h.ihl + 2) ≡ port
      → let q =
          rewrite_port
            (rewrite_addr pkt h.ihl dst_side h.dst a (some h.proto))
            h.ihl
            dst_side
            h.proto
            port
            hport in
        Parsed q (record h { dst = a })
        × (u16_at q (h.ihl + 2) ≡ hport)
        × (u16_at q (h.ihl + 0) ≡ u16_at pkt (h.ihl + 0))
        × (length q ≡ length pkt)
  in_packet_lem port hport held =
      let q = rewrite_addr pkt h.ihl dst_side h.dst a (some h.proto) in
      let size = length-rewrite_addr pkt h.ihl dst_side h.dst a (some h.proto) in
      (
        rewrite_port-Parsed q dst_side h.proto port hport
            (rewrite_dst-Parsed pkt parsed a (some h.proto)),
        u16_at-rewrite_port q h.ihl port hport dst_side h.proto ports (omega arith)
            (u16_at-rewrite_addr_ports dst_side h.dst 2 (omega arith) ∙ held),
        u16_at-rewrite_port_other q h.ihl port hport dst_side h.proto ports 0 (omega arith)
              (inl (omega arith))
            ∙ u16_at-rewrite_addr_ports dst_side h.dst 0 (omega arith),
        length-rewrite_port q h.ihl port hport dst_side h.proto ∙ size,
      )

-- A packet for a port with a binding is delivered to the binding's endpoint.
delivered :
    (m : Nat) (r : List ℕ) (later : ℕ) (g : Ipv4Hdr) (port : ℕ) (b : Binding)
    → has_ports g.proto ≡ true
    → parse r ≡ some g
    → g.ihl + 8 ≤ length r
    → g.dst ≡ m.wg_addr
    → u16_at r (g.ihl + 2) ≡ port
    → forward_for m.forward g.proto port ≡ none
    → find (rev_key g.proto port) m.rev ≡ some b
    → let o = in_keyed m r later g port in
      (o.verdict ≡ translate)
      × (parse o.pkt ≡ some (record g { dst = b.src }))
      × (u16_at o.pkt (g.ihl + 2) ≡ b.sport)
      × (u16_at o.pkt (g.ihl + 0) ≡ u16_at r (g.ihl + 0))
      × (length o.pkt ≡ length r)
unfolding in_keyed in_packet
delivered m r later g port b ports read room to_us to_port open_port held =
    let (header_ok, there, from, size) =
      in_packet_lem r g (parse-Parsed r read) room ports b.src port b.sport to_port in
    rw (open_port, held, in_keyed, ← to_us) (refl, Parsed-parse _ header_ok, there, from, size)

module _ (n : Nat) (pkt : List ℕ) (now : ℕ) (h : Ipv4Hdr) (v : IsValid n) (clear : Unshadowed n)
    (s : Outgoing n pkt h) (plain : leaves_forward n.forward h (u16_at pkt h.ihl) ≡ false)
    (ok : (translate_out n pkt now).verdict ≡ translate) where
  sent : Sent n pkt h (u16_at pkt h.ihl) (u16_at pkt (h.ihl + 2)) now (translate_out n pkt now)
  sent =
      let run = Outgoing-keyed n pkt now h s in
      rw run (
        Sent-out_keyed n pkt now h (u16_at pkt h.ihl) (u16_at pkt (h.ihl + 2)) v clear plain
          (rw run at ok))

  -- Let the NAT be well formed, with no binding on the forwarded port, and let it translate a
  -- TCP or UDP packet (whole, or a first fragment) that does not leave from the forwarded port.
  -- In what leaves, the destination, its port and the length are those of the packet; the
  -- source is the tunnel's address with a port of the allocator's range.
  pub translate_out_packet :
      let q = (translate_out n pkt now).pkt in
      (parse q ≡ some (record h { src = n.wg_addr }))
      × (u16_at q (h.ihl + 2) ≡ u16_at pkt (h.ihl + 2))
      × (port_lo ≤ u16_at q h.ihl)
      × (u16_at q h.ihl ≤ port_hi)
      × (length q ≡ length pkt)
  translate_out_packet =
      let parsed = parse-Parsed pkt s.read in
      let (header_ok, port_ok, other_ok, size) =
        out_packet_lem pkt h parsed s.room s.ports n.wg_addr sent.port in
      rw sent.leaves (
        Parsed-parse (out_packet n.wg_addr pkt h (u16_at pkt h.ihl) sent.port) header_ok,
        other_ok,
        rw port_ok sent.lo,
        rw port_ok sent.hi,
        size,
      )

  -- Let the NAT be well formed, with no binding on the forwarded port, and let it translate a
  -- TCP or UDP packet (whole, or a first fragment) that is no reset and does not leave from the
  -- forwarded port. A reply of the same protocol to the port that the packet left from is
  -- delivered to the host that sent the packet, on the port that it sent from; the reply's
  -- source, its port and its length are unchanged.
  pub translate_in-translate_out :
      (r : List ℕ) (later : ℕ) (g : Ipv4Hdr)
      → (h.proto == proto_tcp && has_rst (translate_out n pkt now).pkt h.ihl) ≡ false
      → Reply (translate_out n pkt now).nat r g h.proto (u16_at (translate_out n pkt now).pkt h.ihl)
      → let o = translate_in (translate_out n pkt now).nat r later in
        (o.verdict ≡ translate)
        × (parse o.pkt ≡ some (record g { dst = h.src }))
        × (u16_at o.pkt (g.ihl + 2) ≡ u16_at pkt h.ihl)
        × (u16_at o.pkt (g.ihl + 0) ≡ u16_at r (g.ihl + 0))
        × (length o.pkt ≡ length r)
  translate_in-translate_out r later g quiet back =
      let m = (translate_out n pkt now).nat in
      let port = u16_at (translate_out n pkt now).pkt h.ihl in
      let port_ok : port ≡ sent.port =
        ap (λ (q : List ℕ). u16_at q h.ihl) sent.leaves
        ∙ (out_packet_lem pkt h (parse-Parsed pkt s.read) s.room s.ports n.wg_addr sent.port).1 in
      let b = binding_of h (u16_at pkt h.ihl) (u16_at pkt (h.ihl + 2)) now in
      rw (Reply-keyed m r later g h.proto port s.ports back) (
        delivered m r later g port b (ap has_ports back.same_proto ∙ s.ports) back.read back.room
          back.to_us back.to_port
          (ap (λ (z : Option Forward). forward_for z g.proto port) sent.same_forward
            ∙ ap (λ (z : ℕ). forward_for n.forward z port) back.same_proto
            ∙ ap (λ (z : ℕ). forward_for n.forward h.proto z) port_ok
            ∙ sent.unreserved)
          (ap (λ (z : ℕ). find (rev_key z port) m.rev) back.same_proto
            ∙ ap (λ (z : ℕ). find (rev_key h.proto z) m.rev) port_ok
            ∙ sent.held quiet))
