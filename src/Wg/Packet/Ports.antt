-- ===== src/Wg/Packet/Ports.antt =====
-- What `rewrite_port` of src/wg.rs changes: the port of a TCP or UDP packet, or the identifier
-- of an ICMP echo.
use tunnel_rs.Base.Bytes.{
  byte, u16_at, put_u16, length-put_u16, byte-put_u16_ne, u16_at-put_u16, u16_at-put_u16_ne,
}
use tunnel_rs.Base.{
  ℕ, ◌+◌, ◌<◌, ◌≤◌, ◌≡◌, ◌⊎◌, inl, inr, true, List, length, ◌==◌, nat_eq, arith, Bool-cases,
  nat_beq_iff,
}
use tunnel_rs.Wg.Checksum.{patch16}
use tunnel_rs.Wg.Packet.Fields.{length-patch_l4, byte-patch_l4}
use tunnel_rs.Wg.Packet.{
  Side, src_side, dst_side, side_port, proto_icmp, has_ports, patch_l4, patch_icmp_id, rewrite_port,
}

u16_at-patch_l4 :
    (q : List ℕ) (ihl proto : ℕ) (patch : ℕ → ℕ) (at : ℕ)
    → at < ihl + 5
    → u16_at (patch_l4 q ihl proto patch) at ≡ u16_at q at
unfolding u16_at
u16_at-patch_l4 q ihl proto patch at lt =
    ground (arith, byte-patch_l4 q ihl proto patch at, byte-patch_l4 q ihl proto patch (at + 1))

module _ (p : List ℕ) (ihl old new : ℕ) where
  length-patch_icmp_id : length (patch_icmp_id p ihl old new) ≡ length p
  unfolding patch_icmp_id
  length-patch_icmp_id =
      let q = put_u16 p (ihl + 4) new in
      ground (
        arith,
        length-put_u16 p (ihl + 4) new,
        length-put_u16 q (ihl + 2) (patch16 (u16_at q (ihl + 2)) old new),
      )

  byte-patch_icmp_id :
      (i : ℕ) → (i < ihl + 2) ⊎ (ihl + 5 < i) → byte (patch_icmp_id p ihl old new) i ≡ byte p i
  unfolding patch_icmp_id
  byte-patch_icmp_id i d =
      let q = put_u16 p (ihl + 4) new in
      ground (
        arith,
        length-put_u16 p (ihl + 4) new,
        byte-put_u16_ne p (ihl + 4) i new,
        byte-put_u16_ne q (ihl + 2) i (patch16 (u16_at q (ihl + 2)) old new),
      )

  -- The echo identifier is the new one.
  u16_at-patch_icmp_id : ihl + 8 ≤ length p → u16_at (patch_icmp_id p ihl old new) (ihl + 4) ≡ new
  unfolding patch_icmp_id
  u16_at-patch_icmp_id h =
      let q = put_u16 p (ihl + 4) new in
      ground (
        arith,
        length-put_u16 p (ihl + 4) new,
        u16_at-put_u16 p (ihl + 4) new,
        u16_at-put_u16_ne q (ihl + 2) (ihl + 4) (patch16 (u16_at q (ihl + 2)) old new),
      )

  module _ (side : Side) where
    side_port-le : side_port side ≤ 2
    side_port-le = elim side as (λ s. side_port s ≤ 2) [
      | src_side ↦ omega arith
      | dst_side ↦ omega arith
    ]

    pub length-rewrite_port :
        (proto : ℕ) → length (rewrite_port p ihl side proto old new) ≡ length p
    unfolding rewrite_port
    length-rewrite_port proto =
        let q = put_u16 p (ihl + side_port side) new in
        ground (
          arith,
          length-put_u16 p (ihl + side_port side) new,
          length-patch_l4 q ihl proto (λ cur. patch16 cur old new),
          length-patch_icmp_id,
        )

    -- The IP header is untouched, whatever the protocol.
    pub byte-rewrite_port_header :
        (proto i : ℕ) → i < ihl → byte (rewrite_port p ihl side proto old new) i ≡ byte p i
    unfolding rewrite_port
    byte-rewrite_port_header proto i h =
        let q = put_u16 p (ihl + side_port side) new in
        ground (
          arith,
          side_port-le,
          byte-put_u16_ne p (ihl + side_port side) i new,
          byte-patch_l4 q ihl proto (λ cur. patch16 cur old new) i,
          byte-patch_icmp_id i,
        )

    -- Of a TCP or UDP packet the other port is kept.
    pub byte-rewrite_port_ne :
        (proto i : ℕ)
        → has_ports proto ≡ true
        → i < ihl + 6
        → (i < ihl + side_port side) ⊎ (ihl + side_port side + 1 < i)
        → byte (rewrite_port p ihl side proto old new) i ≡ byte p i
    unfolding rewrite_port
    byte-rewrite_port_ne proto i ports h d =
        let q = put_u16 p (ihl + side_port side) new in
        ground (
          arith,
          side_port-le,
          byte-put_u16_ne p (ihl + side_port side) i new,
          byte-patch_l4 q ihl proto (λ cur. patch16 cur old new) i,
        )

    pub u16_at-rewrite_port :
        (proto : ℕ)
        → has_ports proto ≡ true
        → ihl + 4 ≤ length p
        → u16_at p (ihl + side_port side) ≡ old
        → u16_at (rewrite_port p ihl side proto old new) (ihl + side_port side) ≡ new
    unfolding rewrite_port
    u16_at-rewrite_port proto ports len held =
        let at = ihl + side_port side in
        let q = put_u16 p at new in
        elim (Bool-cases (old == new)) [
          | inl same ↦ ground (arith, nat_beq_iff old new)
          | inr ne ↦ rw ne (
              ground (
                arith,
                side_port-le,
                u16_at-patch_l4 q ihl proto (λ cur. patch16 cur old new) at
                    (omega (arith, side_port-le)),
                u16_at-put_u16 p at new,
              ))
        ]

    pub byte-rewrite_port_icmp :
        (i : ℕ)
        → (i < ihl + 2) ⊎ (ihl + 5 < i)
        → byte (rewrite_port p ihl side proto_icmp old new) i ≡ byte p i
    unfolding rewrite_port
    byte-rewrite_port_icmp i d = ground (arith, byte-patch_icmp_id i d)

    pub u16_at-rewrite_port_icmp :
        ihl + 8 ≤ length p
        → u16_at p (ihl + 4) ≡ old
        → u16_at (rewrite_port p ihl side proto_icmp old new) (ihl + 4) ≡ new
    unfolding rewrite_port
    u16_at-rewrite_port_icmp len held =
        ground (arith, u16_at-patch_icmp_id len, nat_beq_iff old new)
