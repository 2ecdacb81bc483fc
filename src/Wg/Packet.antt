-- ===== src/Wg/Packet.antt =====
-- Header access and checksum repair of src/wg.rs: `Ipv4Hdr`, `Side`, `rewrite_addr`,
-- `rewrite_port` and what they call. A packet is the list of its bytes. Shifts and masks are
-- written with `/` and `%`.
pub mod Fields
pub mod Ports
pub mod Headers
pub mod Sums
pub mod Repair
use tunnel_rs.Base.Bytes.{byte, u16_at, put_u16}
use tunnel_rs.Base.{
  ℕ, suc, ◌+◌, ◌-◌, ◌*◌, ◌/◌, ◌%◌, ◌<◌, ◌≤◌, ◌≡◌, Bool, true, false, ◌&&◌, ◌||◌, not, Option, none,
  some, List, set, drop, get_elem?, length, ltb, leb, ◌==◌, nat_eq, if◌then◌else◌, ◌>>=◌, ◌>>◌,
  require,
}
use tunnel_rs.Wg.Address.{Ipv4Addr, addr_eq, high, low}
use tunnel_rs.Wg.Checksum.{patch16, patch32, checksum}

abbrev pub proto_icmp : ℕ
proto_icmp = 1

abbrev pub proto_tcp : ℕ
proto_tcp = 6

abbrev pub proto_udp : ℕ
proto_udp = 17

-- `matches!(proto, PROTO_TCP | PROTO_UDP)`
abbrev pub has_ports : ℕ → Bool
has_ports proto = proto == proto_tcp || proto == proto_udp

pub record Ipv4Hdr : Type 0 where
  pub ihl : ℕ
  pub proto : ℕ
  pub src : Ipv4Addr
  pub dst : Ipv4Addr
  pub ip_id : ℕ
  pub frag_offset : ℕ
  pub more_fragments : Bool

-- `Ipv4Addr::new(p[i], p[i + 1], p[i + 2], p[i + 3])`
unfoldable pub addr_at : List ℕ → ℕ → Ipv4Addr
addr_at p i = record { a = byte p i; b = byte p (i + 1); c = byte p (i + 2); d = byte p (i + 3) }

unfoldable pub header : List ℕ → Ipv4Hdr
header pkt = record {
  ihl = byte pkt 0 % 16 * 4;
  proto = byte pkt 9;
  src = addr_at pkt 12;
  dst = addr_at pkt 16;
  ip_id = u16_at pkt 4;
  frag_offset = u16_at pkt 6 % 8192;
  more_fragments = byte pkt 6 / 32 % 2 == 1;
}

unfoldable pub parse : List ℕ → Option Ipv4Hdr
parse pkt =
    if ltb (length pkt) 20 || not (byte pkt 0 / 16 == 4)
    then none
    else (if ltb (byte pkt 0 % 16 * 4) 20 || ltb (length pkt) (byte pkt 0 % 16 * 4)
        then none
        else some (header pkt))

-- Byte offset of the checksum within a TCP or UDP header.
unfoldable pub l4_csum_offset : ℕ → Option ℕ
l4_csum_offset proto =
    if proto == proto_tcp then some 16 else (if proto == proto_udp then some 6 else none)

unfoldable pub store_l4_csum : List ℕ → ℕ → ℕ → ℕ → List ℕ
store_l4_csum pkt at proto value =
    put_u16 pkt at (if value == 0 && proto == proto_udp then 0xffff else value)

pub data Side : Type 0 where
  src_side dst_side : Side

abbrev pub side_addr : Side → ℕ
side_addr src_side = 12
side_addr dst_side = 16

abbrev pub side_port : Side → ℕ
side_port src_side = 0
side_port dst_side = 2

-- `pkt[at..at + 4].copy_from_slice(&n)`
unfoldable pub put_addr : List ℕ → ℕ → Ipv4Addr → List ℕ
put_addr p at n = set (set (set (set p at n.a) (at + 1) n.b) (at + 2) n.c) (at + 3) n.d

unfoldable pub patch_hdr_csum : List ℕ → Ipv4Addr → Ipv4Addr → List ℕ
patch_hdr_csum pkt old new = put_u16 pkt 10 (patch32 (u16_at pkt 10) old new)

unfoldable pub patch_l4_at : List ℕ → ℕ → ℕ → (ℕ → ℕ) → List ℕ
patch_l4_at pkt at proto patch =
    if ltb (length pkt) (at + 2)
    then pkt
    else (if proto == proto_udp && u16_at pkt at == 0
        then pkt
        else store_l4_csum pkt at proto (patch (u16_at pkt at)))

unfoldable pub patch_l4 : List ℕ → ℕ → ℕ → (ℕ → ℕ) → List ℕ
patch_l4 pkt ihl proto patch = elim (l4_csum_offset proto) [
  | none ↦ pkt
  | some off ↦ patch_l4_at pkt (ihl + off) proto patch
]

unfoldable pub patch_icmp_id : List ℕ → ℕ → ℕ → ℕ → List ℕ
patch_icmp_id pkt ihl old new =
    if ltb (length pkt) (ihl + 8)
    then pkt
    else (let moved = put_u16 pkt (ihl + 4) new in
        put_u16 moved (ihl + 2) (patch16 (u16_at moved (ihl + 2)) old new))

-- The address is written, the header checksum repaired, and the checksum over the
-- pseudo-header where `l4` names its protocol.
unfoldable pub rewrite_addr : List ℕ → ℕ → Side → Ipv4Addr → Ipv4Addr → Option ℕ → List ℕ
rewrite_addr pkt ihl side old new l4 =
    if old == new
    then pkt
    else (let fixed = patch_hdr_csum (put_addr pkt (side_addr side) new) old new in
        elim l4 [
          | none ↦ fixed
          | some proto ↦ patch_l4 fixed ihl proto (λ cur. patch32 cur old new)
        ])

unfoldable pub rewrite_port : List ℕ → ℕ → Side → ℕ → ℕ → ℕ → List ℕ
rewrite_port pkt ihl side proto old new =
    if old == new
    then pkt
    else (if has_ports proto
        then (if ltb (length pkt) (ihl + 4)
            then pkt
            else patch_l4 (put_u16 pkt (ihl + side_port side) new) ihl proto
                (λ cur. patch16 cur old new))
        else (if proto == proto_icmp then patch_icmp_id pkt ihl old new else pkt))

unfoldable pub tcp_flags : List ℕ → ℕ → Option ℕ
tcp_flags pkt ihl = get_elem? pkt (ihl + 13)
