-- ===== src/Probe/Text.antt =====
-- Texts of src/probe.rs as lists of characters, with what the standard library does to those
-- that are ASCII; `push_escaped` and `clamp_to`; the errors, and results with `?`.
pub mod Decimal
pub mod Split
use tunnel_rs.Base.{
  ◌*◌, ℕ, zero, suc, ◌+◌, ◌-◌, ◌/◌, ◌%◌, ◌≡◌, refl, Bool, true, false, ◌&&◌, ◌||◌, Option, none,
  some, List, [], ◌∷◌, ◌++◌, length, take, drop, ltb, leb, ◌==◌, nat_eq, if◌then◌else◌,
}

abbrev pub Text : Type 0
Text = List ℕ

-- `char::is_whitespace` on ASCII.
abbrev pub is_whitespace : ℕ → Bool
is_whitespace c = (leb 9 c && leb c 13) || c == 32

abbrev pub is_empty : Text → Bool
is_empty [] = true
is_empty (c ∷ s) = false

unfoldable pub trim_start : Text → Text
trim_start [] = []
trim_start (c ∷ s) = if is_whitespace c then trim_start s else c ∷ s

-- What is left when every last character that passes the test is cut off.
unfoldable pub trim_end_matches : (ℕ → Bool) → Text → Text
trim_end_matches f [] = []
trim_end_matches f (c ∷ s) =
    let rest = trim_end_matches f s in if is_empty rest && f c then [] else c ∷ rest

unfoldable pub trim : Text → Text
unfolding trim_start trim_end_matches
trim s = trim_end_matches is_whitespace (trim_start s)

-- A character in front of the first part.
abbrev pub extend : ℕ → List Text → List Text
extend c [] = (c ∷ []) ∷ []
extend c (p ∷ ps) = (c ∷ p) ∷ ps

unfoldable pub split : ℕ → Text → List Text
split sep [] = [] ∷ []
split sep (c ∷ s) = let rest = split sep s in if c == sep then [] ∷ rest else extend c rest

unfoldable pub join : ℕ → List Text → Text
join sep [] = []
join sep (p ∷ []) = p
join sep (p ∷ q ∷ ps) = p ++ (sep ∷ join sep (q ∷ ps))

-- A digit of `{:02x}`.
abbrev pub hex_digit : ℕ → ℕ
hex_digit d = if ltb d 10 then b'0' + d else b'a' + (d - 10)

abbrev pub hex_byte : ℕ → Text
hex_byte b = hex_digit (b / 16) ∷ hex_digit (b % 16) ∷ []

-- What `push_escaped` writes for one byte.
unfoldable pub escape : ℕ → Text
escape b =
    if b == 34 || b == 92
    then 92 ∷ b ∷ []
    else (if leb 0x20 b && leb b 0x7e then b ∷ [] else 92 ∷ b'x' ∷ hex_byte b)

unfoldable pub escaped : Text → Text
unfolding escape
escaped [] = []
escaped (b ∷ bs) = escape b ++ escaped bs

unfoldable pub push_escaped : Text → Text → Text
unfolding escaped
push_escaped out bytes = out ++ escaped bytes

abbrev pub ellipsis : ℕ
ellipsis = 0x2026

unfoldable pub clamp_to : Text → ℕ → Text
clamp_to s max = if leb (length s) max then s else take (max - 1) s ++ (ellipsis ∷ [])

-- `{n}` of a number of at most 20 digits, which no `u64` exceeds.
unfoldable pub decimal_loop : ℕ → ℕ → Text → Text
decimal_loop zero n out = out
decimal_loop (suc digits) n out =
    let rest = decimal_loop digits (n / 10) ((b'0' + n % 10) ∷ out) in
    if ltb n 10 then (b'0' + n) ∷ out else rest

unfoldable pub decimal : ℕ → Text
unfolding decimal_loop
decimal n = decimal_loop 20 n []

-- `from_str` of an unsigned number: digits, with a plus sign in front or none, up to the limit of
-- its type.
unfoldable pub parse_digits : ℕ → ℕ → Text → Option ℕ
parse_digits limit n [] = some n
parse_digits limit n (c ∷ s) =
    let next = n * 10 + (c - b'0') in
    let rest = parse_digits limit next s in
    if leb b'0' c && leb c b'9' && leb next limit then rest else none

abbrev pub strip_plus : Text → Text
strip_plus [] = []
strip_plus (c ∷ s) = if c == b'+' then s else c ∷ s

unfoldable pub parse_number : ℕ → Text → Option ℕ
unfolding parse_digits
parse_number limit s = if is_empty (strip_plus s) then none else parse_digits limit 0 (strip_plus s)

-- Why a probe fails. The source writes a text for each.
pub data Error : Type 0 where
  truncated_record : Error
  truncated_name : Error
  truncated_label : Error
  name_too_long : Error
  truncated_pointer : Error
  pointer_loop : Error
  pointer_past_end : Error
  reserved_label : Error
  -- of the model alone: its loop ran out of rounds
  out_of_rounds : Error
  empty_label : Error
  label_too_long : Error
  bad_character : Error
  encoded_too_long : Error
  short_response : Error
  wrong_id : Error
  not_a_reply : Error
  different_question : Error
  not_a_port : Error
  port_is_zero : Error
  runs_backwards : Error
  too_many_ports : Error
  no_ports : Error
  no_target : Error
  address_needs_ptr : Error
  network_failed : Error

pub data Result {κ} (V : Type κ) : Type κ where
  err : Error → Result V
  ok : V → Result V

abbrev pub ◌>>=◌ {κ μ} : {V : Type κ} {W : Type μ} → Result V → (V → Result W) → Result W
err why >>= next = err why
ok value >>= next = next value

abbrev pub ◌>>◌ {μ} : {W : Type μ} → Result (Unit {0}) → Result W → Result W
err why >> next = err why
ok passed >> next = next

infixl 5 ◌>>=◌ ◌>>◌
-- `ok_or`
abbrev pub ok_or {κ} : {V : Type κ} → Option V → Error → Result V
ok_or none why = err why
ok_or (some value) why = ok value

-- A guard that fails where the test holds.
abbrev pub refuse : Bool → Error → Result (Unit {0})
refuse true why = err why
refuse false why = ok tt

-- `buf.get(at..at + n)`
unfoldable pub slice : List ℕ → ℕ → ℕ → Option (List ℕ)
slice buf at n = if leb (at + n) (length buf) then some (take n (drop at buf)) else none

-- A chain that succeeds succeeded in its first part and in what follows.
pub bind_inv {κ μ} :
    {V : Type κ} {W : Type μ} (r : Result V) (next : V → Result W) (w : W)
    → (r >>= next) ≡ ok w
    → (v : V) × (r ≡ ok v) × (next v ≡ ok w)
bind_inv (err why) next w h = cc
bind_inv (ok v) next w h = (v, refl, h)

pub refuse_inv {μ} :
    {W : Type μ} (b : Bool) (why : Error) (r : Result W) (w : W)
    → (refuse b why >> r) ≡ ok w
    → (b ≡ false) × (r ≡ ok w)
refuse_inv true why r w h = cc
refuse_inv false why r w h = (refl, h)

pub ok-injective {κ} : {V : Type κ} {x y : V} → ok x ≡ ok y → x ≡ y
ok-injective e = cc

pub then_inv {μ} :
    {W : Type μ} (r : Result (Unit {0})) (next : Result W) (w : W) → (r >> next) ≡ ok w → r ≡ ok tt
then_inv (err why) next w h = cc
then_inv (ok tt) next w h = refl
