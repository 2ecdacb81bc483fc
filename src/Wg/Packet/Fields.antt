-- ===== src/Wg/Packet/Fields.antt =====
-- What the rewrites of src/wg.rs change, byte by byte, and what the header then reads.
use tunnel_rs.Base.Bytes.{byte, u16_at, length-put_u16, byte-set, byte-put_u16_ne}
use tunnel_rs.Base.{
  ℕ, ◌+◌, ◌<◌, ◌≤◌, ◌≡◌, ◌∙◌, ◌⊎◌, inl, inr, false, Option, none, some, List, set, length, nat_beq,
  ◌==◌, nat_eq, if◌then◌else◌, length-set, arith, Bool-cases,
}
use tunnel_rs.Wg.Address.{Ipv4Addr, addr_eq, addr_beq_iff}
use tunnel_rs.Wg.Checksum.{patch32}
use tunnel_rs.Wg.Packet.{
  Side, src_side, dst_side, side_addr, addr_at, l4_csum_offset, store_l4_csum, put_addr,
  patch_hdr_csum, patch_l4_at, patch_l4, rewrite_addr,
}

pub length-put_addr : (p : List ℕ) (at : ℕ) (n : Ipv4Addr) → length (put_addr p at n) ≡ length p
unfolding put_addr
length-put_addr p at n =
    length-set (set (set (set p at n.a) (at + 1) n.b) (at + 2) n.c) (at + 3) n.d
    ∙ length-set (set (set p at n.a) (at + 1) n.b) (at + 2) n.c
    ∙ length-set (set p at n.a) (at + 1) n.b
    ∙ length-set p at n.a

pub byte-put_addr :
    (p : List ℕ) (at i : ℕ) (n : Ipv4Addr)
    → at + 3 < length p
    → byte (put_addr p at n) i ≡ (
        if nat_beq (at + 3) i
        then n.d
        else (if nat_beq (at + 2) i
            then n.c
            else (if nat_beq (at + 1) i then n.b else (if nat_beq at i then n.a else byte p i))))
unfolding put_addr
byte-put_addr p at i n h = ground (
  arith,
  length-set p at n.a,
  length-set (set p at n.a) (at + 1) n.b,
  length-set (set (set p at n.a) (at + 1) n.b) (at + 2) n.c,
  byte-set (set (set (set p at n.a) (at + 1) n.b) (at + 2) n.c) (at + 3) i n.d,
  byte-set (set (set p at n.a) (at + 1) n.b) (at + 2) i n.c,
  byte-set (set p at n.a) (at + 1) i n.b,
  byte-set p at i n.a,
)

pub length-patch_hdr_csum :
    (p : List ℕ) (old new : Ipv4Addr) → length (patch_hdr_csum p old new) ≡ length p
unfolding patch_hdr_csum
length-patch_hdr_csum p old new = length-put_u16 p 10 (patch32 (u16_at p 10) old new)

pub byte-patch_hdr_csum :
    (p : List ℕ) (old new : Ipv4Addr) (i : ℕ)
    → 11 < length p
    → (i < 10) ⊎ (11 < i)
    → byte (patch_hdr_csum p old new) i ≡ byte p i
unfolding patch_hdr_csum
byte-patch_hdr_csum p old new i h d = byte-put_u16_ne p 10 i (patch32 (u16_at p 10) old new) h d

pub length-patch_l4_at :
    (p : List ℕ) (at proto : ℕ) (patch : ℕ → ℕ) → length (patch_l4_at p at proto patch) ≡ length p
unfolding patch_l4_at store_l4_csum
length-patch_l4_at p at proto patch =
    ground (arith, length-put_u16 p at (patch (u16_at p at)), length-put_u16 p at 0xffff)

pub byte-patch_l4_at :
    (p : List ℕ) (at proto : ℕ) (patch : ℕ → ℕ) (i : ℕ)
    → (i < at) ⊎ (at + 1 < i)
    → byte (patch_l4_at p at proto patch) i ≡ byte p i
unfolding patch_l4_at store_l4_csum
byte-patch_l4_at p at proto patch i d =
    ground (arith, byte-put_u16_ne p at i (patch (u16_at p at)), byte-put_u16_ne p at i 0xffff)

pub length-patch_l4 :
    (p : List ℕ) (ihl proto : ℕ) (patch : ℕ → ℕ) → length (patch_l4 p ihl proto patch) ≡ length p
unfolding patch_l4 l4_csum_offset
length-patch_l4 p ihl proto patch =
    ground (
      arith,
      length-patch_l4_at p (ihl + 16) proto patch,
      length-patch_l4_at p (ihl + 6) proto patch,
    )

-- The repair of a TCP or UDP checksum leaves the ports and what stands before them.
pub byte-patch_l4 :
    (p : List ℕ) (ihl proto : ℕ) (patch : ℕ → ℕ) (i : ℕ)
    → i < ihl + 6
    → byte (patch_l4 p ihl proto patch) i ≡ byte p i
unfolding patch_l4 l4_csum_offset
byte-patch_l4 p ihl proto patch i h =
    ground (
      arith,
      byte-patch_l4_at p (ihl + 16) proto patch i,
      byte-patch_l4_at p (ihl + 6) proto patch i,
    )

-- The header and the checksum field aside, an address rewrite leaves every byte up to the
-- end of the ports.
module _ (p : List ℕ) (ihl : ℕ) (side : Side) (old new : Ipv4Addr) (l4 : Option ℕ) where
  abbrev moved : List ℕ
  moved = put_addr p (side_addr side) new

  abbrev repaired : List ℕ
  repaired = patch_hdr_csum moved old new

  pub length-rewrite_addr : length (rewrite_addr p ihl side old new l4) ≡ length p
  unfolding rewrite_addr
  length-rewrite_addr = elim l4 as (λ l. length (rewrite_addr p ihl side old new l) ≡ length p) [
    | none ↦
        ground (arith, length-put_addr p (side_addr side) new, length-patch_hdr_csum moved old new)
    | some proto ↦ ground (
      arith,
      length-put_addr p (side_addr side) new,
      length-patch_hdr_csum moved old new,
      length-patch_l4 repaired ihl proto (λ cur. patch32 cur old new),
    )
  ]

  byte-repaired : (i : ℕ) → 20 ≤ length p → (i < 10) ⊎ (11 < i) → byte repaired i ≡ byte moved i
  byte-repaired i h d =
      byte-patch_hdr_csum moved old new i (omega (arith, length-put_addr p (side_addr side) new)) d

  byte-rewrite_addr-moved :
      (i : ℕ)
      → 20 ≤ length p
      → i < ihl + 6
      → (i < 10) ⊎ (11 < i)
      → (old == new) ≡ false
      → byte (rewrite_addr p ihl side old new l4) i ≡ byte moved i
  unfolding rewrite_addr
  byte-rewrite_addr-moved i len lt d ne =
      rw ne
        (elim l4
          as (λ l.
            byte
              (elim l [
                | none ↦ repaired
                | some proto ↦ patch_l4 repaired ihl proto (λ cur. patch32 cur old new)
              ])
              i
            ≡ byte moved i) [
              | none ↦ byte-repaired i len d
              | some proto ↦
                  byte-patch_l4 repaired ihl proto (λ cur. patch32 cur old new) i lt
                  ∙ byte-repaired i len d
            ])

  side_addr-le : side_addr side ≤ 16
  side_addr-le = elim side as (λ s. side_addr s ≤ 16) [
    | src_side ↦ omega arith
    | dst_side ↦ omega arith
  ]

  side_addr-ge : 12 ≤ side_addr side
  side_addr-ge = elim side as (λ s. 12 ≤ side_addr s) [
    | src_side ↦ omega arith
    | dst_side ↦ omega arith
  ]

  pub byte-rewrite_addr_ne :
      (i : ℕ)
      → 20 ≤ length p
      → i < ihl + 6
      → (i < 10) ⊎ (11 < i)
      → (i < side_addr side) ⊎ (side_addr side + 3 < i)
      → byte (rewrite_addr p ihl side old new l4) i ≡ byte p i
  byte-rewrite_addr_ne i len lt d away = elim (Bool-cases (old == new)) [
    | inl same ↦ unfold rewrite_addr in rw same
    | inr ne ↦
        byte-rewrite_addr-moved i len lt d ne
        ∙ ground (arith, side_addr-le, byte-put_addr p (side_addr side) i new)
  ]

  -- The rewritten side holds the new address, if it held the old one.
  pub addr_at-rewrite_addr :
      20 ≤ length p
      → 20 ≤ ihl
      → addr_at p (side_addr side) ≡ old
      → addr_at (rewrite_addr p ihl side old new l4) (side_addr side) ≡ new
  unfolding addr_at
  addr_at-rewrite_addr len hihl held = elim (Bool-cases (old == new)) [
    | inl same ↦ unfold rewrite_addr in rw same (held ∙ (addr_beq_iff old new).0 same)
    | inr ne ↦
        let at = side_addr side in
        ground (
          arith,
          side_addr-le,
          side_addr-ge,
          byte-rewrite_addr-moved at len (omega (arith, side_addr-le))
              (inr (omega (arith, side_addr-ge))) ne,
          byte-rewrite_addr-moved (at + 1) len (omega (arith, side_addr-le))
              (inr (omega (arith, side_addr-ge))) ne,
          byte-rewrite_addr-moved (at + 2) len (omega (arith, side_addr-le))
              (inr (omega (arith, side_addr-ge))) ne,
          byte-rewrite_addr-moved (at + 3) len (omega (arith, side_addr-le))
              (inr (omega (arith, side_addr-ge))) ne,
          byte-put_addr p at at new,
          byte-put_addr p at (at + 1) new,
          byte-put_addr p at (at + 2) new,
          byte-put_addr p at (at + 3) new,
        )
  ]
