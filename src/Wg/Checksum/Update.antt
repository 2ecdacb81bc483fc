-- ===== src/Wg/Checksum/Update.antt =====
-- The incremental update of RFC 1624 against the checksum computed anew.
use tunnel_rs.Base.{ℕ, ◌+◌, ◌-◌, ◌%◌, ◌^◌, ◌<◌, ◌≡◌, ◌↔◌, List, arith, nat_beq, if◌then◌else◌}
use tunnel_rs.Wg.Address.{Ipv4Addr, IsAddr, high, low}
use tunnel_rs.Wg.Checksum.{fold_carries, carry_rounds, not16, patch16, patch32, sum_words, checksum}

-- What the carry loop computes: the sum modulo 65535, with 65535 for a positive multiple.
abbrev pub folded : ℕ → ℕ
folded s = if nat_beq s 0 then 0 else (s - 1) % 65535 + 1

-- Two rounds are enough for a `u32`, and leave a `u16`.
pub fold_carries-folded : (s : ℕ) → s < 2 ^ 32 → fold_carries carry_rounds s ≡ folded s
unfolding fold_carries
fold_carries-folded s h = ground arith

-- The checksum of a message whose words add up to `s`.
abbrev pub csum_of : ℕ → ℕ
csum_of s = not16 (folded s)

-- The incremental update equals the full recomputation: where `old` becomes `new` in a message
-- whose other words add up to `rest`, which is not 0 and small enough for a `u32`, patching the
-- old checksum gives the new one.
pub patch16-csum_of :
    (rest old new : ℕ)
    → 0 < rest
    → rest + old < 2 ^ 31
    → old < 65536
    → new < 65536
    → patch16 (csum_of (rest + old)) old new ≡ csum_of (rest + new)
unfolding patch16
patch16-csum_of rest old new pos small lo ln =
    ground (arith, fold_carries-folded (not16 (csum_of (rest + old)) + not16 old + new))

-- A checksum that a message needs changes with the message: the sum of both stays the same
-- modulo 65535.
pub patch16_congr :
    (c old new : ℕ)
    → c < 65536
    → old < 65536
    → new < 65536
    → ((patch16 c old new + new) % 65535 ≡ (c + old) % 65535) × (patch16 c old new < 65536)
unfolding patch16
patch16_congr c old new hc ho hn = ground (arith, fold_carries-folded (not16 c + not16 old + new))

pub patch32_congr :
    (c : ℕ) (old new : Ipv4Addr)
    → c < 65536
    → IsAddr old
    → IsAddr new
    → ((patch32 c old new + high new + low new) % 65535 ≡ (c + high old + low old) % 65535)
      × (patch32 c old new < 65536)
unfolding patch32
patch32_congr c old new hc ho hn =
    let first = patch16_congr c (high old) (high new) hc (omega arith) (omega arith) in
    let second =
      patch16_congr (patch16 c (high old) (high new)) (low old) (low new) first.1 (omega arith)
        (omega arith) in
    (omega arith, omega arith)

-- A message checks out when its words, the checksum among them, add up to a positive multiple
-- of 65535.
pub checksum-eq-zero_iff :
    (bytes : List ℕ)
    → sum_words 0 bytes < 2 ^ 32
    → (checksum bytes ≡ 0) ↔ ((0 < sum_words 0 bytes) × (sum_words 0 bytes % 65535 ≡ 0))
unfolding checksum
checksum-eq-zero_iff bytes h = ground (arith, fold_carries-folded (sum_words 0 bytes))
