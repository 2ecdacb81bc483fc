-- ===== src/Wg/Packet/Repair.antt =====
-- The IPv4 header checksum under the rewrites of src/wg.rs: a header that checks out before a
-- rewrite checks out after it.
use tunnel_rs.Base.Bytes.{
  byte, u16_at, put_u16, AllBytes, length-put_u16, u16_at-put_u16_ne, u16_at-lt,
}
use mathlib.Core.Path.{ap₂}
use tunnel_rs.Base.{
  ℕ, zero, suc, ◌+◌, ◌*◌, ◌/◌, ◌%◌, ◌^◌, ◌<◌, ◌≤◌, ◌≡◌, ◌↔◌, ◌∙◌, refl, ap, inl, inr, false, Option,
  none, some, List, [], ◌∷◌, length, take, ◌==◌, nat_eq, arith, Bool-cases,
}
use tunnel_rs.Wg.Address.{Ipv4Addr, IsAddr, addr_eq, high, low}
use tunnel_rs.Wg.Checksum.Update.{patch32_congr, checksum-eq-zero_iff}
use tunnel_rs.Wg.Checksum.{patch32, checksum}
use tunnel_rs.Wg.Packet.Fields.{byte-patch_l4, length-rewrite_addr, byte-rewrite_addr_ne}
use tunnel_rs.Wg.Packet.Headers.{Parsed}
use tunnel_rs.Wg.Packet.Ports.{byte-rewrite_port_header, length-rewrite_port}
use tunnel_rs.Wg.Packet.Sums.{
  word_sum, sum_words-take, word_sum-congr, word_sum-le, word_sum-put, put_addr-words,
}
use tunnel_rs.Wg.Packet.{
  Ipv4Hdr, Side, src_side, dst_side, side_addr, addr_at, header, put_addr, patch_hdr_csum, patch_l4,
  rewrite_addr, rewrite_port,
}

-- What a receiver checks: the checksum over the header comes out as 0.
abbrev pub HeaderOk : List ℕ → ℕ → Type 0
HeaderOk p ihl = checksum (take ihl p) ≡ 0

-- Which word an address starts at.
abbrev side_word : Side → ℕ
side_word src_side = 6
side_word dst_side = 8

side_word-double : (side : Side) → side_addr side ≡ 2 * side_word side
side_word-double src_side = refl
side_word-double dst_side = refl

side_word_bounds : (side : Side) → (6 ≤ side_word side) × (side_word side ≤ 8)
side_word_bounds src_side = omega arith
side_word_bounds dst_side = omega arith

-- The sum of a header whose address and checksum were replaced.
repaired_sum :
    (p : List ℕ) (k n : ℕ) (old new : Ipv4Addr)
    → 20 ≤ length p
    → 10 ≤ n
    → 6 ≤ k
    → k ≤ 8
    → IsAddr new
    → let q = patch_hdr_csum (put_addr p (2 * k) new) old new in
      word_sum q n + u16_at p 10 + (u16_at p (2 * k) + u16_at p (2 * k + 2))
      ≡ word_sum p n + patch32 (u16_at p 10) old new + (high new + low new)
unfolding patch_hdr_csum
repaired_sum p k n old new len wide lo hi v =
    let next : 2 * k + 2 ≡ 2 * (k + 1) = omega arith in
    let first = put_u16 p (2 * k) (high new) in
    let moved = put_u16 first (2 * (k + 1)) (low new) in
    let size1 = length-put_u16 p (2 * k) (high new) in
    let size2 = length-put_u16 first (2 * (k + 1)) (low new) in
    let same10 : u16_at moved 10 ≡ u16_at p 10 =
      u16_at-put_u16_ne first (2 * (k + 1)) 10 (low new) (omega arith) (inl (omega arith))
      ∙ u16_at-put_u16_ne p (2 * k) 10 (high new) (omega arith) (inl (omega arith)) in
    rw (put_addr-words p (2 * k) new v, next, same10)
      (omega (
        arith,
        same10,
        word_sum-put p k (high new) n (omega arith) (omega arith),
        word_sum-put first (k + 1) (low new) n (omega arith) (omega arith),
        u16_at-put_u16_ne p (2 * k) (2 * (k + 1)) (high new) (omega arith) (inr (omega arith)),
        word_sum-put moved 5 (patch32 (u16_at p 10) old new) n (omega arith) (omega arith),
      ))

repaired_sum_at :
    (p : List ℕ) (at k n : ℕ) (old new : Ipv4Addr)
    → at ≡ 2 * k
    → 20 ≤ length p
    → 10 ≤ n
    → 6 ≤ k
    → k ≤ 8
    → IsAddr new
    → let q = patch_hdr_csum (put_addr p at new) old new in
      word_sum q n + u16_at p 10 + (u16_at p at + u16_at p (at + 2))
      ≡ word_sum p n + patch32 (u16_at p 10) old new + (high new + low new)
repaired_sum_at p at k n old new e len wide lo hi v =
    rw e (repaired_sum p k n old new len wide lo hi v)

word_sum-first : (p : List ℕ) (n : ℕ) → 0 < n → u16_at p 0 ≤ word_sum p n
unfolding word_sum
word_sum-first p zero lt = absurd (omega arith)
word_sum-first p (suc zero) lt = omega arith
word_sum-first p (suc (suc n)) lt = omega (arith, word_sum-first p (suc n) (omega arith))

-- A header checks out exactly where its words add up to a multiple of 65535.
HeaderOk-iff :
    (p : List ℕ) (ihl n : ℕ)
    → ihl ≡ 2 * n
    → 20 ≤ ihl
    → ihl ≤ length p
    → byte p 0 / 16 ≡ 4
    → word_sum p n < 2 ^ 32
    → HeaderOk p ihl ↔ (word_sum p n % 65535 ≡ 0)
unfolding u16_at
HeaderOk-iff p ihl n whole wide le version small =
    let total = sum_words-take p n (omega arith) in
    let iff = checksum-eq-zero_iff (take (2 * n) p) (rw total small) in
    let pos : 0 < word_sum p n = omega (arith, version, word_sum-first p n (omega arith)) in
    rw whole ((λ z. rw total at (iff.0 z).1), (λ z. iff.1 (rw total pos, rw total z)))

-- An address rewrite changes the header's words as the repair of the header alone does.
word_sum-rewrite_addr :
    (p : List ℕ) (ihl n : ℕ) (side : Side) (old new : Ipv4Addr) (l4 : Option ℕ)
    → 2 * n ≤ ihl
    → (old == new) ≡ false
    → word_sum (rewrite_addr p ihl side old new l4) n
      ≡ word_sum (patch_hdr_csum (put_addr p (side_addr side) new) old new) n
unfolding rewrite_addr
word_sum-rewrite_addr p ihl n side old new none le ne = rw ne
word_sum-rewrite_addr p ihl n side old new (some proto) le ne =
    let q = patch_hdr_csum (put_addr p (side_addr side) new) old new in
    rw ne (
      word_sum-congr q (patch_l4 q ihl proto (λ cur. patch32 cur old new)) n (λ i lt.
        unfold u16_at in
        ground (
          arith,
          byte-patch_l4 q ihl proto (λ cur. patch32 cur old new) (2 * i),
          byte-patch_l4 q ihl proto (λ cur. patch32 cur old new) (2 * i + 1),
        )))

IsAddr-words :
    (p : List ℕ) (at : ℕ)
    → AllBytes p
    → IsAddr (addr_at p at)
      × (u16_at p at ≡ high (addr_at p at))
      × (u16_at p (at + 2) ≡ low (addr_at p at))
unfolding addr_at u16_at
IsAddr-words p at all =
    let e : at + 2 + 1 ≡ at + 3 = omega arith in
    (
      record { a_lt = all at; b_lt = all (at + 1); c_lt = all (at + 2); d_lt = all (at + 3) },
      refl,
      rw e,
    )

-- Lists of one length that agree on their first bytes have the same prefix.
take-congr :
    (n : ℕ) (p q : List ℕ)
    → length q ≡ length p
    → ((i : ℕ) → i < n → byte q i ≡ byte p i)
    → take n q ≡ take n p
unfolding byte
take-congr zero p q e h = refl
take-congr (suc n) [] [] e h = refl
take-congr (suc n) [] (y ∷ q) e h = absurd (omega arith)
take-congr (suc n) (x ∷ p) [] e h = absurd (omega arith)
take-congr (suc n) (x ∷ p) (y ∷ q) e h =
    ap₂ ◌∷◌ (h 0 (omega arith)) (take-congr n p q (omega arith) (λ i lt. h (suc i) (omega arith)))

module _ (p : List ℕ) {h : Ipv4Hdr} (s : Parsed p h) (all : AllBytes p) where
  -- The words of the rewritten header add up to the same number modulo 65535.
  rewrite_addr_mod :
      (side : Side) (new : Ipv4Addr) (l4 : Option ℕ)
      → IsAddr new
      → (addr_at p (side_addr side) == new) ≡ false
      → let q = rewrite_addr p h.ihl side (addr_at p (side_addr side)) new l4 in
        (word_sum q (h.ihl / 2) % 65535 ≡ word_sum p (h.ihl / 2) % 65535)
        × (word_sum q (h.ihl / 2) ≤ word_sum p (h.ihl / 2) + 196608)
  unfolding header
  rewrite_addr_mod side new l4 v ne =
      let n = h.ihl / 2 in
      let k = side_word side in
      let old = addr_at p (side_addr side) in
      let (old_ok, hi, lo) = IsAddr-words p (side_addr side) all in
      let total =
        repaired_sum_at p (side_addr side) k n old new (side_word-double side) (omega arith)
          (omega arith) (side_word_bounds side).0 (side_word_bounds side).1 v in
      let (congr, small) = patch32_congr (u16_at p 10) old new (u16_at-lt p 10 all) old_ok v in
      rw (word_sum-rewrite_addr p h.ihl n side old new l4 (omega arith) ne)
        (omega (arith, total, congr, small, hi, lo), omega (arith, total, small))

  -- After an address rewrite the header still checks out.
  pub HeaderOk-rewrite_addr :
      (side : Side) (new : Ipv4Addr) (l4 : Option ℕ)
      → IsAddr new
      → HeaderOk p h.ihl
      → HeaderOk (rewrite_addr p h.ihl side (addr_at p (side_addr side)) new l4) h.ihl
  unfolding header
  HeaderOk-rewrite_addr side new l4 v good =
      let old = addr_at p (side_addr side) in
      let q = rewrite_addr p h.ihl side old new l4 in
      let n = h.ihl / 2 in
      let bound = word_sum-le p n all in
      let size : h.ihl ≤ 60 = small_header in
      let whole : h.ihl ≡ 2 * n = even_header in
      elim (Bool-cases (old == new)) [
        | inl same ↦ unfold rewrite_addr in rw same good
        | inr ne ↦
            let (congr, room) = rewrite_addr_mod side new l4 v ne in
            let before =
              (HeaderOk-iff p h.ihl n whole s.ihl-ge s.ihl-le s.version (omega arith)).0 good in
            (HeaderOk-iff q h.ihl n whole s.ihl-ge
                (omega (arith, length-rewrite_addr p h.ihl side old new l4))
                (version side old new l4) (omega arith)).1
              (congr ∙ before)
      ]
    where
      small_header : h.ihl ≤ 60
      small_header = omega (arith, ap (λ (z : Ipv4Hdr). z.ihl) s.read)

      even_header : h.ihl ≡ 2 * (h.ihl / 2)
      even_header = omega (arith, ap (λ (z : Ipv4Hdr). z.ihl) s.read)

      version :
          (side : Side) (old new : Ipv4Addr) (l4 : Option ℕ)
          → byte (rewrite_addr p h.ihl side old new l4) 0 / 16 ≡ 4
      version side old new l4 =
          ap (λ (z : ℕ). z / 16)
            (byte-rewrite_addr_ne p h.ihl side old new l4 0 (omega arith) (omega arith)
              (inl (omega arith))
              (inl (omega (arith, side_word-double side, side_word_bounds side))))
          ∙ s.version

-- A port rewrite leaves the header's words.
pub HeaderOk-rewrite_port :
    (p : List ℕ) {h : Ipv4Hdr} (side : Side) (proto old new : ℕ)
    → Parsed p h
    → HeaderOk p h.ihl
    → HeaderOk (rewrite_port p h.ihl side proto old new) h.ihl
HeaderOk-rewrite_port p {h} side proto old new s good =
    rw
      (take-congr h.ihl p (rewrite_port p h.ihl side proto old new)
        (length-rewrite_port p h.ihl old new side proto)
        (byte-rewrite_port_header p h.ihl old new side proto))
      good
