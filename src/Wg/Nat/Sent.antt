-- ===== src/Wg/Nat/Sent.antt =====
-- A packet that the NAT of src/wg.rs sends on, and the binding that it leaves behind.
use tunnel_rs.Base.Bytes.{u16_at}
use tunnel_rs.Base.Table.{find, find-insert}
use tunnel_rs.Base.{
  ℕ, ◌+◌, ◌<◌, ◌≤◌, ◌≡◌, ◌∙◌, refl, ap, ◌⊎◌, inl, inr, true, false, ◌&&◌, none, some, List, length,
  ◌==◌, nat_eq, arith, Bool-cases, Option-cases,
}
use tunnel_rs.Wg.Address.{addr_eq, addr_beq_iff, routable}
use tunnel_rs.Wg.Nat.Alloc.{alloc_port_lem}
use tunnel_rs.Wg.Nat.Bindings.{open_binding, touch}
use tunnel_rs.Wg.Nat.State.{
  Binding, Forward, Nat, translate, alloc_port, close, taken, reserved, fwd_key_eq, rev_key_eq,
  port_lo, port_hi,
}
use tunnel_rs.Wg.Nat.Tables.{IsValid, rev_key}
use tunnel_rs.Wg.Nat.Translate.{
  Outcome, close_on_rst, has_rst, demux_out, out_key, leaves_forward, out_packet, out_bound,
  out_alloc, out_keyed, out_demuxed, out_parsed, translate_out, forward_for, in_keyed, in_parsed,
  translate_in,
}
use tunnel_rs.Wg.Packet.Ports.{byte-rewrite_port_ne}
use tunnel_rs.Wg.Packet.{
  Side, side_addr, side_port, Ipv4Hdr, src_side, dst_side, parse, proto_tcp, has_ports,
  rewrite_port,
}

pub side_addr-le16 : (side : Side) → side_addr side ≤ 16
side_addr-le16 src_side = omega arith
side_addr-le16 dst_side = omega arith

-- The other port of a port rewrite.
pub u16_at-rewrite_port_other :
    (p : List ℕ) (ihl old new : ℕ) (side : Side) (proto : ℕ)
    → has_ports proto ≡ true
    → (k : ℕ) → k < 3
    → (k + 1 < side_port side) ⊎ (side_port side + 1 < k)
    → u16_at (rewrite_port p ihl side proto old new) (ihl + k) ≡ u16_at p (ihl + k)
unfolding u16_at
u16_at-rewrite_port_other p ihl old new side proto ports k lt d = ground (
  arith,
  byte-rewrite_port_ne p ihl old new side proto (ihl + k) ports,
  byte-rewrite_port_ne p ihl old new side proto (ihl + k + 1) ports,
)

-- No binding holds the forwarded port.
abbrev pub Unshadowed : Nat → Type 0
Unshadowed n =
    (f : Forward) (proto : ℕ)
    → n.forward ≡ some f
    → has_ports proto ≡ true
    → find (rev_key proto f.port) n.rev ≡ none

-- A whole TCP or UDP packet, or its first fragment, that is bound for a routable address.
pub record Outgoing (n : Nat) (pkt : List ℕ) (h : Ipv4Hdr) : Type 0 where
  pub read : parse pkt ≡ some h
  pub ports : has_ports h.proto ≡ true
  pub first : h.frag_offset ≡ 0
  pub room : h.ihl + 8 ≤ length pkt
  pub away : routable h.dst ≡ true
  pub other : (h.dst == n.wg_addr) ≡ false

-- A packet of the same protocol that comes in for the port.
pub record Reply (n : Nat) (r : List ℕ) (g : Ipv4Hdr) (proto port : ℕ) : Type 0 where
  pub read : parse r ≡ some g
  pub same_proto : g.proto ≡ proto
  pub first : g.frag_offset ≡ 0
  pub room : g.ihl + 8 ≤ length r
  pub to_us : g.dst ≡ n.wg_addr
  pub to_port : u16_at r (g.ihl + 2) ≡ port

-- An ordinary packet reaches the keyed part of `translate_out`.
pub Outgoing-keyed :
    (n : Nat) (pkt : List ℕ) (now : ℕ) (h : Ipv4Hdr)
    → Outgoing n pkt h
    → translate_out n pkt now ≡ out_keyed n pkt now h (u16_at pkt h.ihl) (u16_at pkt (h.ihl + 2))
unfolding translate_out out_parsed demux_out out_demuxed
Outgoing-keyed n pkt now h s =
    rw (s.read, translate_out, s.away, s.other, s.first, s.ports) (ground (arith, s.room))

pub Reply-keyed :
    (n : Nat) (r : List ℕ) (now : ℕ) (g : Ipv4Hdr) (proto port : ℕ)
    → has_ports proto ≡ true
    → Reply n r g proto port
    → translate_in n r now ≡ in_keyed n r now g port
unfolding translate_in in_parsed
Reply-keyed n r now g proto port ports s =
    rw (s.read, translate_in) (ground (arith, addr_beq_iff g.dst n.wg_addr))

-- The binding that a translated packet leaves behind.
abbrev pub binding_of : Ipv4Hdr → ℕ → ℕ → ℕ → Binding
binding_of h sport dport now = record {
  src = h.src;
  sport = sport;
  dst = h.dst;
  dport = dport;
  last = now;
}

pub record Sent (n : Nat) (pkt : List ℕ) (h : Ipv4Hdr) (sport dport now : ℕ) (o : Outcome)
    : Type 0 where
  pub port : ℕ
  pub leaves : o.pkt ≡ out_packet n.wg_addr pkt h sport port
  pub held :
      (h.proto == proto_tcp && has_rst o.pkt h.ihl) ≡ false
      → find (rev_key h.proto port) o.nat.rev ≡ some (binding_of h sport dport now)
  pub unreserved : forward_for n.forward h.proto port ≡ none
  pub lo : port_lo ≤ port
  pub hi : port ≤ port_hi
  pub same_forward : o.nat.forward ≡ n.forward
  pub same_addr : o.nat.wg_addr ≡ n.wg_addr

-- A packet sent on a port that belongs to its conversation.
Sent-out_bound :
    (n : Nat) (pkt : List ℕ) (now : ℕ) (h : Ipv4Hdr) (sport dport p last : ℕ)
    → find (rev_key h.proto p) n.rev ≡ some (binding_of h sport dport last)
    → forward_for n.forward h.proto p ≡ none
    → port_lo ≤ p
    → p ≤ port_hi
    → Sent n pkt h sport dport now (out_bound n pkt now h sport p)
unfolding out_bound touch close_on_rst close
Sent-out_bound n pkt now h sport dport p last e un lo hi = record {
  port = p;
  leaves = refl;
  held = λ quiet. ground (
    arith,
    find-insert (rev_key h.proto p) (rev_key h.proto p) (binding_of h sport dport now) n.rev,
  );
  unreserved = un;
  lo = lo;
  hi = hi;
  same_forward = ground arith;
  same_addr = ground arith;
}

-- A port that is not taken is not the forwarded one.
forward_for-free :
    (n : Nat) (proto p : ℕ) → taken n proto p ≡ false → forward_for n.forward proto p ≡ none
unfolding taken reserved forward_for
forward_for-free n proto p h = ground arith

-- Nor is a port with a binding, in a NAT where no binding holds the forwarded port.
forward_for-bound :
    (n : Nat) (proto p : ℕ) (b : Binding)
    → Unshadowed n
    → find (rev_key proto p) n.rev ≡ some b
    → forward_for n.forward proto p ≡ none
unfolding forward_for
forward_for-bound n proto p b clear e = elim (Option-cases n.forward) [
  | inl off ↦ rw off
  | inr (f, on) ↦ rw on (elim (Bool-cases (has_ports proto && p == f.port)) [
    | inr no_match ↦ rw no_match
    | inl match ↦ absurd (ground (arith, clear f proto on))
  ])
]

-- A packet sent on a port that the allocator returned.
Sent-open_binding :
    (n : Nat) (pkt : List ℕ) (now : ℕ) (h : Ipv4Hdr) (sport dport p cursor : ℕ)
    → taken n h.proto p ≡ false
    → port_lo ≤ p
    → p ≤ port_hi
    → Sent n pkt h sport dport now (
        out_bound
          (open_binding (record n { next_port = cursor }) (out_key h sport dport) p now)
          pkt
          now
          h
          sport
          p)
unfolding out_packet out_bound open_binding Sent-out_bound
Sent-open_binding n pkt now h sport dport p cursor free lo hi =
    let m : Nat = record n { next_port = cursor } in
    let s =
      Sent-out_bound (open_binding m (out_key h sport dport) p now) pkt now h sport dport p now
        (ground (
          arith,
          find-insert (rev_key h.proto p) (rev_key h.proto p) (binding_of h sport dport now) n.rev,
        ))
        (forward_for-free n h.proto p free) lo hi in
    record {
      port = p;
      leaves = refl;
      held = s.held;
      unreserved = s.unreserved;
      lo = lo;
      hi = hi;
      same_forward = s.same_forward;
      same_addr = s.same_addr;
    }

Sent-out_alloc :
    (n : Nat) (pkt : List ℕ) (now : ℕ) (h : Ipv4Hdr) (sport dport : ℕ)
    → IsValid n
    → (out_alloc (alloc_port n h.proto) pkt now h sport dport).verdict ≡ translate
    → Sent n pkt h sport dport now (out_alloc (alloc_port n h.proto) pkt now h sport dport)
unfolding out_alloc
Sent-out_alloc n pkt now h sport dport v ok = elim (Option-cases (alloc_port n h.proto).0) [
  | inl e ↦ cc (rw (e, out_alloc) at ok)
  | inr (p, e) ↦
      let (free, lo, hi, room, same) = alloc_port_lem n h.proto v p e in
      rw (e, out_alloc, same)
        (Sent-open_binding n pkt now h sport dport p (alloc_port n h.proto).1.next_port free lo hi)
]

pub Sent-out_keyed :
    (n : Nat) (pkt : List ℕ) (now : ℕ) (h : Ipv4Hdr) (sport dport : ℕ)
    → IsValid n
    → Unshadowed n
    → leaves_forward n.forward h sport ≡ false
    → (out_keyed n pkt now h sport dport).verdict ≡ translate
    → Sent n pkt h sport dport now (out_keyed n pkt now h sport dport)
unfolding out_keyed
Sent-out_keyed n pkt now h sport dport v clear plain ok =
    let k = out_key h sport dport in
    elim (Option-cases (find k n.fwd)) [
      | inl e ↦
          rw (plain, e, out_keyed)
            (Sent-out_alloc n pkt now h sport dport v (rw (plain, e, out_keyed) at ok))
      | inr (p, e) ↦ elim (Option-cases (find (rev_key h.proto p) n.rev)) [
        | inl gone ↦ absurd (ground (arith, (v.inverse k p).0))
        | inr (b, there) ↦
            let same : b ≡ binding_of h sport dport b.last = ground (arith, (v.inverse k p).0) in
            let range = v.in_range (rev_key h.proto p) (λ z. ground arith) in
            rw (plain, e, out_keyed)
              (Sent-out_bound n pkt now h sport dport p b.last (there ∙ ap some same)
                (forward_for-bound n h.proto p b clear there) range.0 range.1)
      ]
    ]
