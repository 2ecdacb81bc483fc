-- ===== src/Probe/Text/Decimal.antt =====
-- Numbers in the texts of src/probe.rs: what is written in decimal is read back.
use tunnel_rs.Base.{
  ℕ, zero, suc, ◌+◌, ◌-◌, ◌*◌, ◌/◌, ◌%◌, ◌<◌, ◌≤◌, ◌≡◌, refl, ap, inl, inr, Bool, true, false, ◌&&◌,
  [], ◌∷◌, ltb, leb, nat_eq, arith, Bool-cases,
}
use tunnel_rs.Probe.Name.{all_bytes}
use tunnel_rs.Probe.Text.{
  parse_digits, strip_plus, Text, is_whitespace, is_empty, trim, trim_start, trim_end_matches,
  decimal, decimal_loop,
}

-- A power of ten.
abbrev pub pow10 : ℕ → ℕ
pow10 zero = 1
pow10 (suc d) = 10 * pow10 d

-- Reading the digits of a number behind which more text stands.
pub parse_digits-decimal_loop :
    (limit digits n : ℕ) (out : Text)
    → n < pow10 digits
    → n ≤ limit
    → parse_digits limit 0 (decimal_loop digits n out) ≡ parse_digits limit n out
unfolding parse_digits decimal_loop
parse_digits-decimal_loop limit zero n out enough low =
    ap (λ (m : ℕ). parse_digits limit m out) (let e : 0 ≡ n = omega arith in e)
parse_digits-decimal_loop limit (suc digits) n out enough low = elim (Bool-cases (ltb n 10)) [
  | inl small ↦
      let value : 0 * 10 + (b'0' + n - b'0') ≡ n = omega arith in
      let digit : (leb b'0' (b'0' + n) && leb (b'0' + n) b'9' && leb n limit) ≡ true =
        ground arith in
      rw (small, parse_digits, value, digit) refl
  | inr large ↦
      let ih =
        parse_digits-decimal_loop limit digits (n / 10) ((b'0' + n % 10) ∷ out) (ground arith)
          (omega arith) in
      let value : n / 10 * 10 + (b'0' + n % 10 - b'0') ≡ n = omega arith in
      let digit : (leb b'0' (b'0' + n % 10) && leb (b'0' + n % 10) b'9' && leb n limit) ≡ true =
        ground arith in
      rw (large, ih, parse_digits, value, digit) refl
]

abbrev pub is_digit : ℕ → Bool
is_digit c = leb b'0' c && leb c b'9'

abbrev pub Digits : Text → Type 0
Digits s = all_bytes is_digit s ≡ true

decimal_loop-Digits : (digits n : ℕ) (out : Text) → Digits out → Digits (decimal_loop digits n out)
unfolding decimal_loop
decimal_loop-Digits zero n out a = a
decimal_loop-Digits (suc digits) n out a =
    let digit : is_digit (b'0' + n % 10) ≡ true = ground arith in
    let ih = decimal_loop-Digits digits (n / 10) ((b'0' + n % 10) ∷ out) (rw digit a) in
    elim (Bool-cases (ltb n 10)) [
      | inl low ↦ let one : is_digit (b'0' + n) ≡ true = ground arith in rw (low, one) a
      | inr high ↦ rw high ih
    ]

decimal_loop-filled :
    (digits n c : ℕ) (out : Text) → is_empty (decimal_loop digits n (c ∷ out)) ≡ false
unfolding decimal_loop
decimal_loop-filled zero n c out = refl
decimal_loop-filled (suc digits) n c out =
    ground (arith, decimal_loop-filled digits (n / 10) (b'0' + n % 10) (c ∷ out))

pub decimal_lem : (n : ℕ) → Digits (decimal n) × (is_empty (decimal n) ≡ false)
unfolding decimal decimal_loop
decimal_lem n = (
  decimal_loop-Digits 20 n [] refl,
  ground (arith, decimal_loop-filled 19 (n / 10) (b'0' + n % 10) []),
)

-- What digits are not.
pub trim_end-Digits : (s : Text) → Digits s → trim_end_matches is_whitespace s ≡ s
unfolding trim_end_matches
trim_end-Digits [] d = refl
trim_end-Digits (c ∷ s) d =
    let plain : is_whitespace c ≡ false = ground arith in
    let shut : (is_empty s && is_whitespace c) ≡ false = ground arith in
    rw (trim_end-Digits s (ground arith), shut) refl

pub trim-Digits : (s : Text) → Digits s → trim s ≡ s
unfolding trim trim_start
trim-Digits [] d = unfold trim_end_matches in refl
trim-Digits (c ∷ s) d =
    let plain : is_whitespace c ≡ false = ground arith in rw plain (trim_end-Digits (c ∷ s) d)

pub strip_plus-Digits : (s : Text) → Digits s → strip_plus s ≡ s
strip_plus-Digits [] d = refl
strip_plus-Digits (c ∷ s) d = ground arith
