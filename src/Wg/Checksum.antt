-- ===== src/Wg/Checksum.antt =====
-- The one's-complement checksum of src/wg.rs: `patch16`, `patch32`, `checksum`. A `u16` or `u32`
-- is a number; no sum below reaches 2 ^ 32 on a packet of at most 65535 bytes.
pub mod Update
use tunnel_rs.Base.{
  ℕ, zero, suc, ◌+◌, ◌-◌, ◌*◌, ◌/◌, ◌%◌, ◌<◌, ◌≤◌, ◌≡◌, refl, List, [], ◌∷◌, arith, nat_beq,
  if◌then◌else◌,
}
use tunnel_rs.Wg.Address.{Ipv4Addr, high, low}

-- `while sum >> 16 != 0 { sum = (sum & 0xffff) + (sum >> 16); }` with fuel. A `u32` needs two
-- rounds.
unfoldable pub fold_carries : ℕ → ℕ → ℕ
fold_carries zero sum = sum
fold_carries (suc fuel) sum =
    let rest = fold_carries fuel (sum % 65536 + sum / 65536) in
    if nat_beq (sum / 65536) 0 then sum else rest

abbrev pub carry_rounds : ℕ
carry_rounds = 2

-- `!x` on a `u16`.
abbrev pub not16 : ℕ → ℕ
not16 x = 65535 - x

unfoldable pub patch16 : ℕ → ℕ → ℕ → ℕ
patch16 csum old new = not16 (fold_carries carry_rounds (not16 csum + not16 old + new) % 65536)

unfoldable pub patch32 : ℕ → Ipv4Addr → Ipv4Addr → ℕ
patch32 csum old new = patch16 (patch16 csum (high old) (high new)) (low old) (low new)

-- The loop over pairs of bytes; a last odd byte is the high half of a word.
unfoldable pub sum_words : ℕ → List ℕ → ℕ
sum_words sum [] = sum
sum_words sum (x ∷ []) = sum + x * 256
sum_words sum (x ∷ y ∷ rest) = sum_words (sum + (x * 256 + y)) rest

unfoldable pub checksum : List ℕ → ℕ
checksum bytes = not16 (fold_carries carry_rounds (sum_words 0 bytes) % 65536)
