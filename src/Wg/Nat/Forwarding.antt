-- ===== src/Wg/Nat/Forwarding.antt =====
-- The forwarded port of `Nat` in src/wg.rs: what comes in unasked, and the mapping that keeps
-- one number whatever the peer.
use tunnel_rs.Base.Bytes.{u16_at}
use tunnel_rs.Base.Table.{find}
use tunnel_rs.Base.{
  ℕ, ◌+◌, ◌≡◌, ◌≢◌, ◌∙◌, sym, refl, ap, true, none, some, Option, List, nat_eq, arith,
}
use tunnel_rs.Wg.Address.{Ipv4Addr, addr_eq, addr_beq_iff}
use tunnel_rs.Wg.Nat.Sent.{Outgoing, Outgoing-keyed, Reply, Reply-keyed}
use tunnel_rs.Wg.Nat.RoundTrip.{u16_at-rewrite_addr_ports}
use tunnel_rs.Wg.Nat.State.{
  Nat, Forward, Binding, translate, drop as dropped, set_forward, rev_key_eq, fwd_key_eq,
}
use tunnel_rs.Wg.Nat.Tables.{rev_key}
use tunnel_rs.Wg.Nat.Translate.{
  give, forward_for, note_fragment, in_forward, in_keyed, translate_in, leaves_forward, out_keyed,
  translate_out, saturating_inc,
}
use tunnel_rs.Wg.Packet.Headers.{parse-Parsed, Parsed-parse, rewrite_src-Parsed, rewrite_dst-Parsed}
use tunnel_rs.Wg.Packet.{Ipv4Hdr, src_side, dst_side, parse, has_ports}

not_forwarded :
    (forward : Option Forward) (proto port : ℕ)
    → ((f : Forward) → forward ≡ some f → f.port ≢ port)
    → forward_for forward proto port ≡ none
unfolding forward_for
not_forwarded none proto port other = refl
not_forwarded (some f) proto port other = let apart : f.port ≢ port = other f refl in ground arith

-- A TCP or UDP packet to the tunnel's address, whole or a first fragment, for a port that has
-- no binding and is not the port of the forward, if there is one, is dropped, and it changes
-- nothing: neither the tables, nor the counter, nor the packet.
pub unsolicited_dropped :
    (n : Nat) (r : List ℕ) (now : ℕ) (g : Ipv4Hdr) (proto port : ℕ)
    → has_ports proto ≡ true
    → Reply n r g proto port
    → find (rev_key proto port) n.rev ≡ none
    → ((f : Forward) → n.forward ≡ some f → f.port ≢ port)
    → translate_in n r now ≡ give dropped r n
unfolding in_keyed
unsolicited_dropped n r now g proto port ports s absent other =
    let closed' : forward_for n.forward g.proto port ≡ none =
      ap (λ (z : ℕ). forward_for n.forward z port) s.same_proto
      ∙ not_forwarded n.forward proto port other in
    let absent' : find (rev_key g.proto port) n.rev ≡ none =
      ap (λ (z : ℕ). find (rev_key z port) n.rev) s.same_proto ∙ absent in
    rw (Reply-keyed n r now g proto port ports s, closed', absent', in_keyed)

-- The forwarded port accepts a packet from any peer that no conversation asked for. It is
-- delivered to the forward's host with both ports and its source unchanged, it is counted, and
-- neither table changes.
pub forward_accepts :
    (n : Nat) (r : List ℕ) (now : ℕ) (g : Ipv4Hdr) (proto : ℕ) (f : Forward)
    → has_ports proto ≡ true
    → n.forward ≡ some f
    → Reply n r g proto f.port
    → let o = translate_in n r now in
      (o.verdict ≡ translate)
      × (parse o.pkt ≡ some (record g { dst = f.host }))
      × (u16_at o.pkt (g.ihl + 2) ≡ f.port)
      × (u16_at o.pkt (g.ihl + 0) ≡ u16_at r (g.ihl + 0))
      × (o.nat.forwarded_in ≡ saturating_inc n.forwarded_in)
      × (o.nat.rev ≡ n.rev)
      × (o.nat.fwd ≡ n.fwd)
unfolding in_keyed in_forward note_fragment
forward_accepts n r now g proto f ports on s =
    let parsed = parse-Parsed r s.read in
    let proto_ok : has_ports g.proto ≡ true = ap has_ports s.same_proto ∙ ports in
    let claimed : forward_for n.forward g.proto f.port ≡ some f =
      unfold forward_for in ground arith in
    let keep = u16_at-rewrite_addr_ports r g parsed s.room proto_ok f.host dst_side g.dst in
    rw (Reply-keyed n r now g proto f.port ports s, claimed, in_keyed, ← s.to_us)
      (
        refl,
        Parsed-parse _ (rewrite_dst-Parsed r parsed f.host (some g.proto)),
        keep 2 (omega arith) ∙ s.to_port,
        keep 0 (omega arith),
        ground arith,
        ground arith,
        ground arith,
      )

-- A binding that holds the number when `set_forward` opens the forward is shadowed by it: a
-- reply to that binding's conversation is delivered to the forward's host, on the forwarded
-- port, and not to the endpoint that the binding names.
pub set_forward_shadows :
    (n : Nat) (r : List ℕ) (now : ℕ) (g : Ipv4Hdr) (proto port : ℕ) (host : Ipv4Addr) (b : Binding)
    → has_ports proto ≡ true
    → find (rev_key proto port) n.rev ≡ some b
    → b.sport ≢ port
    → Reply n r g proto port
    → let o = translate_in (set_forward n host port) r now in
      (o.verdict ≡ translate)
      × (parse o.pkt ≡ some (record g { dst = host }))
      × (u16_at o.pkt (g.ihl + 2) ≢ b.sport)
unfolding set_forward
set_forward_shadows n r now g proto port host b ports held other s =
    let m = set_forward n host port in
    let f : Forward = record { host = host; port = port } in
    let back : Reply m r g proto port = record {
      read = s.read;
      same_proto = s.same_proto;
      first = s.first;
      room = s.room;
      to_us = s.to_us;
      to_port = s.to_port;
    } in
    let t = forward_accepts m r now g proto f ports refl back in
    (t.0, t.1, λ e. other (sym e ∙ t.2))

-- The mapping of the forwarded port is a cone: whatever the peer, a packet of the forward's
-- host from that port leaves on the same number from the tunnel's address, and leaves no
-- binding behind.
pub forward_keeps_port :
    (n : Nat) (pkt : List ℕ) (now : ℕ) (h : Ipv4Hdr) (f : Forward)
    → n.forward ≡ some f
    → Outgoing n pkt h
    → h.src ≡ f.host
    → u16_at pkt h.ihl ≡ f.port
    → let o = translate_out n pkt now in
      (o.verdict ≡ translate)
      × (parse o.pkt ≡ some (record h { src = n.wg_addr }))
      × (u16_at o.pkt (h.ihl + 0) ≡ f.port)
      × (u16_at o.pkt (h.ihl + 2) ≡ u16_at pkt (h.ihl + 2))
      × (o.nat ≡ n)
unfolding out_keyed
forward_keeps_port n pkt now h f on s from port_ok =
    let parsed = parse-Parsed pkt s.read in
    let claimed : leaves_forward n.forward h (u16_at pkt h.ihl) ≡ true =
      unfold leaves_forward in ground (arith, s.ports, addr_beq_iff h.src f.host) in
    let keep = u16_at-rewrite_addr_ports pkt h parsed s.room s.ports n.wg_addr src_side h.src in
    let zero_off : h.ihl + 0 ≡ h.ihl = omega arith in
    rw (Outgoing-keyed n pkt now h s, claimed)
      (
        refl,
        Parsed-parse _ (rewrite_src-Parsed pkt parsed n.wg_addr (some h.proto)),
        keep 0 (omega arith) ∙ ap (u16_at pkt) zero_off ∙ port_ok,
        keep 2 (omega arith),
        refl,
      )
