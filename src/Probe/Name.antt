-- ===== src/Probe/Name.antt =====
-- Domain names on the wire in src/probe.rs: `encode_name` and `read_name`.
pub mod Bounds
pub mod RoundTrip
use tunnel_rs.Base.{
  ℕ, zero, suc, ◌+◌, ◌-◌, ◌*◌, ◌/◌, ◌%◌, ◌<◌, ◌≤◌, ◌≡◌, ◌≢◌, refl, ap, Bool, true, false, ◌&&◌,
  ◌||◌, not, Option, none, some, List, [], ◌∷◌, ◌++◌, length, take, drop, get_elem?, ltb, leb, ◌==◌,
  nat_eq, if◌then◌else◌, arith,
}
use tunnel_rs.Probe.Text.{
  Text, is_empty, trim, trim_end_matches, split, push_escaped, Error, truncated_name,
  truncated_label, name_too_long, truncated_pointer, pointer_loop, pointer_past_end, reserved_label,
  out_of_rounds, empty_label, label_too_long, bad_character, encoded_too_long, Result, ok, err,
  ok_or, refuse, slice, ◌>>=◌, ◌>>◌,
}

abbrev pub max_name_jumps : ℕ
max_name_jumps = 32

-- The bytes that a label may hold.
abbrev pub label_byte : ℕ → Bool
label_byte b =
    (leb b'a' b && leb b b'z')
    || (leb b'A' b && leb b b'Z')
    || (leb b'0' b && leb b b'9')
    || b == b'-'
    || b == b'_'
    || b == b'*'

abbrev pub all_bytes : (ℕ → Bool) → List ℕ → Bool
all_bytes f [] = true
all_bytes f (b ∷ bs) = f b && all_bytes f bs

unfoldable pub check_label : Text → Result (Unit {0})
check_label label = do
  refuse (is_empty label) empty_label
  refuse (ltb 63 (length label)) label_too_long
  refuse (not (all_bytes label_byte label)) bad_character

-- The loop over the labels: the bytes that it appends.
unfoldable pub encode_labels : List Text → Result (List ℕ)
unfolding check_label
encode_labels [] = ok []
encode_labels (label ∷ labels) =
    check_label label >>= λ _. encode_labels labels >>= λ rest. ok (length label ∷ (label ++ rest))

-- `name.trim().trim_end_matches('.')`
unfoldable pub bare : Text → Text
bare name = trim_end_matches (λ c. c == b'.') (trim name)

-- `encode_name`: what it appends to its buffer.
unfoldable pub encode_name : Text → Result (List ℕ)
unfolding encode_labels bare
encode_name name = do
  labels ← (if is_empty (bare name) then ok [] else encode_labels (split b'.' (bare name)))
  refuse (ltb 255 (length (labels ++ (0 ∷ [])))) encoded_too_long
  ok (labels ++ (0 ∷ []))

-- The variables of the loop of `read_name`.
pub record Cursor : Type 0 where
  pub out : Text
  pub pos : ℕ
  pub jumps : ℕ
  pub resume : Option ℕ

-- How one round of the loop ends.
pub data Turn : Type 0 where
  more : Cursor → Turn
  done : Cursor → Turn
  fail : Error → Turn

-- A label behind what was decoded so far.
unfoldable pub add_label : Text → Text → Text
add_label out label = push_escaped (if is_empty out then out else out ++ (b'.' ∷ [])) label

-- A label of `len` bytes behind its length byte.
unfoldable pub take_label : List ℕ → Cursor → ℕ → Turn
take_label buf c len = elim (slice buf (c.pos + 1) len) [
  | none ↦ fail truncated_label
  | some label ↦
      let out = add_label c.out label in
      if ltb 255 (length out)
      then fail name_too_long
      else more (record c { out = out; pos = c.pos + 1 + len })
]

abbrev pub or_else {κ} : {A : Type κ} → Option A → A → A
or_else none a = a
or_else (some b) a = b

unfoldable pub follow_pointer : List ℕ → Cursor → ℕ → Turn
follow_pointer buf c len = elim (get_elem? buf (c.pos + 1)) [
  | none ↦ fail truncated_pointer
  | some lo ↦
      let target = len % 64 * 256 + lo in
      if ltb max_name_jumps (c.jumps + 1)
      then fail pointer_loop
      else (if leb (length buf) target
          then fail pointer_past_end
          else more (record c {
            pos = target;
            jumps = c.jumps + 1;
            resume = some (or_else c.resume (c.pos + 2));
          }))
]

-- One round: the two high bits of the byte tell a label from a pointer.
unfoldable pub turn : List ℕ → Cursor → Turn
unfolding take_label follow_pointer
turn buf c = elim (get_elem? buf c.pos) [
  | none ↦ fail truncated_name
  | some len ↦
      if len / 64 == 0
      then (if len == 0 then done (record c { pos = c.pos + 1 }) else take_label buf c len)
      else (if len / 64 == 3 then follow_pointer buf c len else fail reserved_label)
]

unfoldable pub read_loop : ℕ → List ℕ → Cursor → Result Cursor
read_loop zero buf c = err out_of_rounds
read_loop (suc rounds) buf c = elim (turn buf c) [
  | done end ↦ ok end
  | fail why ↦ err why
  | more next ↦ read_loop rounds buf next
]

-- One round for each character of the longest name and for each jump, and one more.
abbrev pub name_rounds : ℕ
name_rounds = 255 + max_name_jumps + 1

unfoldable pub finish : Cursor → Text × ℕ
finish c = (if is_empty c.out then b'.' ∷ [] else c.out, or_else c.resume c.pos)

unfoldable pub read_name : List ℕ → ℕ → Result (Text × ℕ)
unfolding finish
read_name buf start =
    read_loop name_rounds buf (record { out = []; pos = start; jumps = 0; resume = none }) >>= λ c.
    ok (finish c)
