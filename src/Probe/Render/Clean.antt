-- ===== src/Probe/Render/Clean.antt =====
-- Texts of src/probe.rs that are fit to be displayed, and the pieces they are made of.
use tunnel_rs.Base.{
  ℕ, zero, suc, ◌+◌, ◌-◌, ◌/◌, ◌%◌, ◌<◌, ◌≤◌, ◌≡◌, refl, inl, inr, Bool, true, false, ◌&&◌, ◌||◌,
  List, [], ◌∷◌, ◌++◌, length, take, ltb, leb, ◌==◌, nat_eq, if◌then◌else◌, codes, arith, All,
  All-take, Bool-cases, length-append, length-take,
}
use tunnel_rs.Probe.Name.{all_bytes}
use tunnel_rs.Probe.Name.Bounds.{IsByte, IsPrintable, escaped_lem}
use tunnel_rs.Probe.Render.{hex, hex_head, malformed}
use tunnel_rs.Probe.Text.{
  Text, is_empty, hex_digit, escaped, push_escaped, clamp_to, ellipsis, decimal_loop, decimal,
}

-- A printable ASCII character, or the ellipsis of a cut text.
abbrev pub is_displayed : ℕ → Bool
is_displayed c = (leb 0x20 c && leb c 0x7e) || c == ellipsis

abbrev pub Clean : Text → Type 0
Clean s = all_bytes is_displayed s ≡ true

pub append-Clean : (s t : Text) → Clean s → Clean t → Clean (s ++ t)
append-Clean [] t a b = b
append-Clean (c ∷ s) t a b = ground (arith, append-Clean s t)

take-Clean : (n : ℕ) (s : Text) → Clean s → Clean (take n s)
take-Clean zero s a = refl
take-Clean (suc n) [] a = refl
take-Clean (suc n) (c ∷ s) a = ground (arith, take-Clean n s)

pub printable-Clean : (s : Text) → All IsPrintable s → Clean s
printable-Clean [] a = refl
printable-Clean (c ∷ s) a = ground (arith, printable-Clean s a.1)

pub cond-Clean : (b : Bool) (s t : Text) → Clean s → Clean t → Clean (if b then s else t)
cond-Clean true s t a b = a
cond-Clean false s t a b = b

pub push_escaped-Clean :
    (out : Text) (bs : List ℕ) → Clean out → All IsByte bs → Clean (push_escaped out bs)
unfolding push_escaped
push_escaped-Clean out bs a bytes =
    append-Clean out (escaped bs) a (printable-Clean (escaped bs) (escaped_lem bs bytes).0)

decimal_loop-Clean : (digits n : ℕ) (out : Text) → Clean out → Clean (decimal_loop digits n out)
unfolding decimal_loop
decimal_loop-Clean zero n out a = a
decimal_loop-Clean (suc digits) n out a =
    let digit : is_displayed (b'0' + n % 10) ≡ true = ground arith in
    let ih = decimal_loop-Clean digits (n / 10) ((b'0' + n % 10) ∷ out) (rw digit a) in
    elim (Bool-cases (ltb n 10)) [
      | inl low ↦ let one : is_displayed (b'0' + n) ≡ true = ground arith in rw (low, one) a
      | inr high ↦ rw high ih
    ]

pub decimal-Clean : (n : ℕ) → Clean (decimal n)
unfolding decimal
decimal-Clean n = decimal_loop-Clean 20 n [] refl

hex-Clean : (bs : List ℕ) → All IsByte bs → Clean (hex bs)
unfolding hex
hex-Clean [] bytes = refl
hex-Clean (b ∷ bs) bytes =
    let high : is_displayed (hex_digit (b / 16)) ≡ true = ground arith in
    let low : is_displayed (hex_digit (b % 16)) ≡ true = ground arith in
    rw (high, low) (hex-Clean bs bytes.1)

pub hex_head-Clean : (bs : List ℕ) → All IsByte bs → Clean (hex_head bs)
unfolding hex_head
hex_head-Clean bs bytes =
    append-Clean (hex (take 32 bs)) (if ltb 32 (length bs) then ellipsis ∷ [] else [])
      (hex-Clean (take 32 bs) (All-take IsByte 32 bs bytes))
      (cond-Clean (ltb 32 (length bs)) _ _ refl refl)

pub malformed-Clean : (rdata : List ℕ) → All IsByte rdata → Clean (malformed rdata)
unfolding malformed
malformed-Clean rdata bytes =
    cond-Clean (is_empty (hex_head rdata)) _ _ refl (hex_head-Clean rdata bytes)

-- A number, a space, and more.
pub number-Clean : (n : ℕ) (s : Text) → Clean s → Clean (decimal n ++ (codes " " ++ s))
number-Clean n s a = append-Clean (decimal n) (codes " " ++ s) (decimal-Clean n) a

pub clamp_to_lem :
    (s : Text) (max : ℕ)
    → 0 < max
    → Clean s
    → Clean (clamp_to s max) × (length (clamp_to s max) ≤ max)
unfolding clamp_to
clamp_to_lem s max pos a = elim (Bool-cases (leb (length s) max)) [
  | inl fits ↦ rw fits (a, ground arith)
  | inr long ↦
      let cut = append-Clean (take (max - 1) s) (ellipsis ∷ []) (take-Clean (max - 1) s a) refl in
      let size = length-append (take (max - 1) s) (ellipsis ∷ []) in
      rw long (cut, omega (arith, size, length-take (max - 1) s))
]
