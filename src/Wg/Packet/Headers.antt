-- ===== src/Wg/Packet/Headers.antt =====
-- How the parsed header follows the rewrites of src/wg.rs.
use tunnel_rs.Base.Bytes.{byte, u16_at}
use tunnel_rs.Base.{ℕ, ◌/◌, ◌<◌, ◌≤◌, ◌≡◌, inl, inr, Option, some, List, length, nat_eq, arith}
use tunnel_rs.Wg.Address.{Ipv4Addr}
use tunnel_rs.Wg.Packet.Fields.{length-rewrite_addr, byte-rewrite_addr_ne, addr_at-rewrite_addr}
use tunnel_rs.Wg.Packet.Ports.{length-rewrite_port, byte-rewrite_port_header}
use tunnel_rs.Wg.Packet.{
  Ipv4Hdr, Side, src_side, dst_side, side_addr, addr_at, header, parse, rewrite_addr, rewrite_port,
}

-- What a successful parse says of the packet.
pub record Parsed (p : List ℕ) (h : Ipv4Hdr) : Type 0 where
  pub read : h ≡ header p
  pub version : byte p 0 / 16 ≡ 4
  pub ihl-ge : 20 ≤ h.ihl
  pub ihl-le : h.ihl ≤ length p

pub parse-Parsed : (p : List ℕ) {h : Ipv4Hdr} → parse p ≡ some h → Parsed p h
unfolding parse header
parse-Parsed p e = ground arith

pub Parsed-parse : (p : List ℕ) {h : Ipv4Hdr} → Parsed p h → parse p ≡ some h
unfolding parse header
Parsed-parse p e = ground arith

-- Two packets whose fixed header fields agree, the addresses aside.
record SameFields (p q : List ℕ) : Type 0 where
  size : length q ≡ length p
  first : byte q 0 ≡ byte p 0
  protocol : byte q 9 ≡ byte p 9
  identification : u16_at q 4 ≡ u16_at p 4
  fragment : u16_at q 6 ≡ u16_at p 6
  flags : byte q 6 ≡ byte p 6

header-SameFields :
    {p q : List ℕ}
    → SameFields p q
    → header q ≡ record (header p) { src = addr_at q 12; dst = addr_at q 16 }
unfolding header
header-SameFields s = ground arith

Parsed-SameFields :
    {p q : List ℕ} {h : Ipv4Hdr}
    → SameFields p q
    → Parsed p h
    → Parsed q (record h { src = addr_at q 12; dst = addr_at q 16 })
unfolding header
Parsed-SameFields s h = ground (arith, header-SameFields s)

module _ (p : List ℕ) {h : Ipv4Hdr} (parsed : Parsed p h) (new : Ipv4Addr) (l4 : Option ℕ) where
  SameFields-rewrite_addr :
      (side : Side) (old : Ipv4Addr) → SameFields p (rewrite_addr p h.ihl side old new l4)
  unfolding u16_at
  SameFields-rewrite_addr side old =
      let keep = byte-rewrite_addr_ne p h.ihl side old new l4 in
      let wide : 20 ≤ length p = omega arith in
      let below : (i : ℕ) → i < 10 → byte (rewrite_addr p h.ihl side old new l4) i ≡ byte p i =
        λ i lt. keep i wide (omega arith) (inl lt) (inl (side_after i side lt)) in
      record {
        size = length-rewrite_addr p h.ihl side old new l4;
        first = below 0 (omega arith);
        protocol = below 9 (omega arith);
        identification = ground (arith, below 4 (omega arith), below 5 (omega arith));
        fragment = ground (arith, below 6 (omega arith), below 7 (omega arith));
        flags = below 6 (omega arith);
      }
    where
      side_after : (i : ℕ) (s : Side) → i < 10 → i < side_addr s
      side_after i src_side lt = omega arith
      side_after i dst_side lt = omega arith

  -- The source rewritten, the destination kept.
  pub rewrite_src-Parsed :
      Parsed (rewrite_addr p h.ihl src_side h.src new l4) (record h { src = new })
  unfolding header addr_at
  rewrite_src-Parsed =
      let q = rewrite_addr p h.ihl src_side h.src new l4 in
      let keep = byte-rewrite_addr_ne p h.ihl src_side h.src new l4 in
      let wide : 20 ≤ length p = omega arith in
      ground (
        arith,
        Parsed-SameFields (SameFields-rewrite_addr src_side h.src) parsed,
        addr_at-rewrite_addr p h.ihl src_side h.src new l4,
        keep 16 wide (omega arith) (inr (omega arith)) (inr (omega arith)),
        keep 17 wide (omega arith) (inr (omega arith)) (inr (omega arith)),
        keep 18 wide (omega arith) (inr (omega arith)) (inr (omega arith)),
        keep 19 wide (omega arith) (inr (omega arith)) (inr (omega arith)),
      )

  -- The destination rewritten, the source kept.
  pub rewrite_dst-Parsed :
      Parsed (rewrite_addr p h.ihl dst_side h.dst new l4) (record h { dst = new })
  unfolding header addr_at
  rewrite_dst-Parsed =
      let keep = byte-rewrite_addr_ne p h.ihl dst_side h.dst new l4 in
      let wide : 20 ≤ length p = omega arith in
      ground (
        arith,
        Parsed-SameFields (SameFields-rewrite_addr dst_side h.dst) parsed,
        addr_at-rewrite_addr p h.ihl dst_side h.dst new l4,
        keep 12 wide (omega arith) (inr (omega arith)) (inl (omega arith)),
        keep 13 wide (omega arith) (inr (omega arith)) (inl (omega arith)),
        keep 14 wide (omega arith) (inr (omega arith)) (inl (omega arith)),
        keep 15 wide (omega arith) (inr (omega arith)) (inl (omega arith)),
      )

-- A port rewrite leaves the header.
pub rewrite_port-Parsed :
    (p : List ℕ) {h : Ipv4Hdr} (side : Side) (proto old new : ℕ)
    → Parsed p h
    → Parsed (rewrite_port p h.ihl side proto old new) h
unfolding header addr_at u16_at
rewrite_port-Parsed p {h} side proto old new parsed =
    let keep = byte-rewrite_port_header p h.ihl old new side proto in
    ground (
      arith,
      length-rewrite_port p h.ihl old new side proto,
      keep 0 (omega arith),
      keep 4 (omega arith),
      keep 5 (omega arith),
      keep 6 (omega arith),
      keep 7 (omega arith),
      keep 9 (omega arith),
      keep 12 (omega arith),
      keep 13 (omega arith),
      keep 14 (omega arith),
      keep 15 (omega arith),
      keep 16 (omega arith),
      keep 17 (omega arith),
      keep 18 (omega arith),
      keep 19 (omega arith),
    )
