-- ===== src/Probe/Lookup/Reverse.antt =====
-- Every IPv4 address has a reverse name that `build_query` of src/probe.rs accepts.
use tunnel_rs.Base.{
  ℕ, zero, suc, ◌+◌, ◌/◌, ◌%◌, ◌≤◌, ◌≡◌, refl, Bool, true, false, ◌&&◌, List, [], ◌∷◌, ◌++◌, length,
  ltb, ◌==◌, nat_eq, if◌then◌else◌, codes, arith, All, length-append,
}
use mathlib.Core.List.{append_assoc}
use tunnel_rs.Probe.Lookup.{v4, reverse_labels, reverse_name}
use tunnel_rs.Probe.Message.{build_query, query_header, be16}
use tunnel_rs.Probe.Name.{encode_name, encode_labels, check_label, bare, all_bytes, label_byte}
use tunnel_rs.Probe.Text.Decimal.{Digits, decimal_lem}
use tunnel_rs.Probe.Text.{
  Text, is_empty, is_whitespace, trim, trim_start, trim_end_matches, split, decimal, decimal_loop,
  ok,
}

-- The labels on the wire.
abbrev pub on_wire : List Text → List ℕ
on_wire [] = []
on_wire (l ∷ ls) = length l ∷ (l ++ on_wire ls)

encode_labels-on_wire :
    (ls : List Text) → All (λ l. check_label l ≡ ok tt) ls → encode_labels ls ≡ ok (on_wire ls)
unfolding encode_labels
encode_labels-on_wire [] a = refl
encode_labels-on_wire (l ∷ ls) a = rw (a.0, encode_labels-on_wire ls a.1) refl

length-decimal_loop :
    (digits n : ℕ) (out : Text) → length (decimal_loop digits n out) ≤ digits + length out
unfolding decimal_loop
length-decimal_loop zero n out = omega arith
length-decimal_loop (suc digits) n out =
    ground (arith, length-decimal_loop digits (n / 10) ((b'0' + n % 10) ∷ out))

length-decimal : (n : ℕ) → length (decimal n) ≤ 20
unfolding decimal
length-decimal n = omega (arith, length-decimal_loop 20 n [])

digit-label_byte : (s : Text) → Digits s → all_bytes label_byte s ≡ true
digit-label_byte [] d = refl
digit-label_byte (c ∷ s) d = ground (arith, digit-label_byte s)

check_label-decimal : (n : ℕ) → check_label (decimal n) ≡ ok tt
unfolding check_label
check_label-decimal n =
    let (digits, filled) = decimal_lem n in
    let short : ltb 63 (length (decimal n)) ≡ false = ground (arith, length-decimal n) in
    rw (filled, short, digit-label_byte (decimal n) digits) refl

-- Text in front of a text that nothing is cut off from.
trim_end-append :
    (f : ℕ → Bool) (s : Text) (c : ℕ) (t : Text)
    → trim_end_matches f (c ∷ t) ≡ c ∷ t
    → trim_end_matches f (s ++ (c ∷ t)) ≡ s ++ (c ∷ t)
unfolding trim_end_matches
trim_end-append f [] c t h = h
trim_end-append f (d ∷ s) c t h = rw (trim_end-append f s c t h, trim_end_matches) (full s)
  where
    full :
        (s : Text)
        → (if is_empty (s ++ (c ∷ t)) && f d then [] else d ∷ (s ++ (c ∷ t))) ≡ d ∷ (s ++ (c ∷ t))
    full [] = refl
    full (e ∷ s) = refl

split-dot : (s t : Text) → Digits s → split b'.' (s ++ (b'.' ∷ t)) ≡ s ∷ split b'.' t
unfolding split
split-dot [] t d = refl
split-dot (c ∷ s) t d =
    let other : (c == b'.') ≡ false = ground arith in rw (split-dot s t (ground arith), other) refl

abbrev zone : Text
zone = codes "in-addr.arpa"

trim_start-Digits : (s t : Text) → Digits s → is_empty s ≡ false → trim_start (s ++ t) ≡ s ++ t
unfolding trim_start
trim_start-Digits [] t d e = cc
trim_start-Digits (c ∷ s) t d e =
    let plain : is_whitespace c ≡ false = ground arith in rw plain refl

is_empty-append : (s t : Text) → is_empty s ≡ false → is_empty (s ++ t) ≡ false
is_empty-append [] t e = cc
is_empty-append (c ∷ s) t e = refl

length-on_wire :
    (l : Text) (ls : List Text) → length (on_wire (l ∷ ls)) ≡ 1 + length l + length (on_wire ls)
length-on_wire l ls = omega (arith, length-append l (on_wire ls))

module _ (a b c d : ℕ) where
  abbrev pub labels : List Text
  labels = decimal d ∷ decimal c ∷ decimal b ∷ decimal a ∷ codes "in-addr" ∷ codes "arpa" ∷ []

  -- The name as it stands, from its second label on, third, and so on.
  abbrev fourth : Text
  fourth = decimal a ++ (b'.' ∷ zone)

  abbrev third : Text
  third = decimal b ++ (b'.' ∷ fourth)

  abbrev second : Text
  second = decimal c ++ (b'.' ∷ third)

  abbrev whole : Text
  whole = decimal d ++ (b'.' ∷ second)

  reverse_name-v4 : reverse_name (v4 a b c d) ≡ whole
  unfolding reverse_name reverse_labels
  reverse_name-v4 = simp append_assoc

  trim_end-whole :
      (f : ℕ → Bool)
      → trim_end_matches f (b'.' ∷ zone) ≡ b'.' ∷ zone
      → trim_end_matches f whole ≡ whole
  trim_end-whole f h = trim_end-append f (decimal d) b'.' second (
      trim_end-append f (b'.' ∷ decimal c) b'.' third (
        trim_end-append f (b'.' ∷ decimal b) b'.' fourth
          (trim_end-append f (b'.' ∷ decimal a) b'.' zone h)))

  bare-whole : bare whole ≡ whole
  unfolding bare trim trim_end_matches
  bare-whole =
      rw
        (
          trim_start-Digits (decimal d) (b'.' ∷ second) (decimal_lem d).0 (decimal_lem d).1,
          trim_end-whole is_whitespace refl,
        )
        (trim_end-whole (λ k. k == b'.') refl)

  split-whole : split b'.' whole ≡ labels
  unfolding split
  split-whole =
      rw
        (
          split-dot (decimal d) second (decimal_lem d).0,
          split-dot (decimal c) third (decimal_lem c).0,
          split-dot (decimal b) fourth (decimal_lem b).0,
          split-dot (decimal a) zone (decimal_lem a).0,
        )
        refl

  labels_checked : All (λ l. check_label l ≡ ok tt) labels
  unfolding check_label
  labels_checked = (
    check_label-decimal d,
    (check_label-decimal c, (check_label-decimal b, (check_label-decimal a, (refl, (refl, tt))))),
  )

  length-labels : length (on_wire labels ++ (0 ∷ [])) ≤ 255
  length-labels = omega (
    arith,
    length-append (on_wire labels) (0 ∷ []),
    length-on_wire (decimal d)
        (decimal c ∷ decimal b ∷ decimal a ∷ codes "in-addr" ∷ codes "arpa" ∷ []),
    length-on_wire (decimal c) (decimal b ∷ decimal a ∷ codes "in-addr" ∷ codes "arpa" ∷ []),
    length-on_wire (decimal b) (decimal a ∷ codes "in-addr" ∷ codes "arpa" ∷ []),
    length-on_wire (decimal a) (codes "in-addr" ∷ codes "arpa" ∷ []),
    length-decimal a,
    length-decimal b,
    length-decimal c,
    length-decimal d,
  )

  encode_name-whole : encode_name whole ≡ ok (on_wire labels ++ (0 ∷ []))
  unfolding encode_name
  encode_name-whole =
      let short : ltb 255 (length (on_wire labels ++ (0 ∷ []))) ≡ false =
        ground (arith, length-labels) in
      rw
        (
          bare-whole,
          is_empty-append (decimal d) (b'.' ∷ second) (decimal_lem d).1,
          split-whole,
          encode_labels-on_wire labels labels_checked,
          short,
        )
        refl

  -- An address of IPv4 can always be asked about: its reverse name is one that can be encoded.
  pub build_query-reverse_name :
      (id qtype : ℕ)
      → build_query id (reverse_name (v4 a b c d)) qtype
        ≡ ok (query_header id ++ ((on_wire labels ++ (0 ∷ [])) ++ (be16 qtype ++ be16 1)))
  unfolding build_query
  build_query-reverse_name id qtype = rw (reverse_name-v4, encode_name-whole) refl
