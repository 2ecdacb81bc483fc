-- ===== src/Probe/Intel/Origin.antt =====
-- An origin record as Team Cymru writes it and `render_txt` of src/probe.rs quotes it is read back
-- by `parse_origin`.
use tunnel_rs.Base.{
  ℕ, ◌-◌, ◌^◌, ◌<◌, ◌≤◌, ◌≡◌, ◌∙◌, refl, ap, Bool, true, false, ◌&&◌, not, some, List, [], ◌∷◌,
  ◌++◌, map, ◌==◌, nat_eq, codes, arith,
}
use mathlib.Core.List.{append_assoc}
use tunnel_rs.Probe.Intel.{without_quotes, cymru_fields, word, first_word, parse_origin}
use tunnel_rs.Probe.Name.{all_bytes}
use tunnel_rs.Probe.Text.{
  parse_digits, parse_number, Text, is_whitespace, is_empty, trim, trim_start, trim_end_matches,
  split, decimal,
}
use tunnel_rs.Probe.Text.Decimal.{
  pow10, parse_digits-decimal_loop, Digits, decimal_lem, trim_end-Digits, strip_plus-Digits,
}

-- Neither a quote nor a bar.
abbrev pub is_plain : ℕ → Bool
is_plain c = not (c == b'"') && not (c == b'|')

abbrev pub IsPlain : Text → Type 0
IsPlain s = all_bytes is_plain s ≡ true

Digits-IsPlain : (s : Text) → Digits s → IsPlain s
Digits-IsPlain [] d = refl
Digits-IsPlain (c ∷ s) d = ground (arith, Digits-IsPlain s)

without_quotes-append : (s t : Text) → IsPlain s → without_quotes (s ++ t) ≡ s ++ without_quotes t
unfolding without_quotes
without_quotes-append [] t p = refl
without_quotes-append (c ∷ s) t p =
    let other : (c == b'"') ≡ false = ground arith in
    rw (without_quotes-append s t (ground arith), other) refl

split-bar : (s t : Text) → IsPlain s → split b'|' (s ++ (b'|' ∷ t)) ≡ s ∷ split b'|' t
unfolding split
split-bar [] t p = refl
split-bar (c ∷ s) t p =
    let other : (c == b'|') ≡ false = ground arith in rw (split-bar s t (ground arith), other) refl

space-IsPlain : (s : Text) → IsPlain s → IsPlain (s ++ codes " ")
space-IsPlain [] p = refl
space-IsPlain (c ∷ s) p = ground (arith, space-IsPlain s)

-- A space at the end is cut off.
trim_end-space :
    (s : Text) → trim_end_matches is_whitespace (s ++ codes " ") ≡ trim_end_matches is_whitespace s
unfolding trim_end_matches
trim_end-space [] = refl
trim_end-space (c ∷ s) = rw (trim_end-space s) refl

-- A text that starts and ends with no white space, between spaces.
trim-space :
    (c : ℕ) (s : Text)
    → is_whitespace c ≡ false
    → trim_end_matches is_whitespace (c ∷ s) ≡ c ∷ s
    → trim ((c ∷ s) ++ codes " ") ≡ c ∷ s
unfolding trim trim_start
trim-space c s plain end = rw plain (trim_end-space (c ∷ s) ∙ end)

trim-between :
    (c : ℕ) (s : Text)
    → is_whitespace c ≡ false
    → trim_end_matches is_whitespace (c ∷ s) ≡ c ∷ s
    → trim (codes " " ++ ((c ∷ s) ++ codes " ")) ≡ c ∷ s
unfolding trim trim_start
trim-between c s plain end = rw plain (trim_end-space (c ∷ s) ∙ end)

trim-number : (s : Text) → Digits s → is_empty s ≡ false → trim (s ++ codes " ") ≡ s
trim-number [] d e = cc
trim-number (c ∷ s) d e = trim-space c s (ground arith) (trim_end-Digits (c ∷ s) d)

word-Digits : (s : Text) → Digits s → word s ≡ s
unfolding word
word-Digits [] d = refl
word-Digits (c ∷ s) d =
    let plain : is_whitespace c ≡ false = ground arith in
    rw (word-Digits s (ground arith), plain) refl

first_word-Digits : (s : Text) → Digits s → is_empty s ≡ false → first_word s ≡ some s
unfolding first_word trim_start
first_word-Digits [] d e = cc
first_word-Digits (c ∷ s) d e =
    let plain : is_whitespace c ≡ false = ground arith in rw (plain, word-Digits (c ∷ s) d) refl

parse_number-decimal :
    (limit n : ℕ) → n ≤ limit → n < pow10 20 → parse_number limit (decimal n) ≡ some n
unfolding parse_number
parse_number-decimal limit n low enough =
    let (digits, filled) = decimal_lem n in
    let read : parse_digits limit 0 (decimal n) ≡ some n =
      unfold decimal in
      (parse_digits-decimal_loop limit 20 n [] enough low ∙ unfold parse_digits in refl) in
    rw (strip_plus-Digits (decimal n) digits, filled, read) refl

-- The record, in its quotes.
abbrev pub origin_record : ℕ → Text → Text → Text
origin_record asn prefix rest =
    b'"' ∷ (decimal asn ++ (codes " | " ++ (prefix ++ (codes " | " ++ (rest ++ codes "\"")))))

without_quotes-bar : (t : Text) → without_quotes (b'|' ∷ t) ≡ b'|' ∷ without_quotes t
unfolding without_quotes
without_quotes-bar t = refl

without_quotes-bar_space :
    (t : Text) → without_quotes (b'|' ∷ (codes " " ++ t)) ≡ b'|' ∷ (codes " " ++ without_quotes t)
unfolding without_quotes
without_quotes-bar_space t = refl

without_quotes-origin_record :
    (asn c : ℕ) (s rest : Text)
    → without_quotes (origin_record asn (c ∷ s) rest)
      ≡ without_quotes
          (decimal asn ++ (codes " | " ++ ((c ∷ s) ++ (codes " | " ++ (rest ++ codes "\"")))))
unfolding without_quotes
without_quotes-origin_record asn c s rest = refl

cymru_fields-origin_record :
    (asn c : ℕ) (s rest : Text)
    → IsPlain (c ∷ s)
    → is_whitespace c ≡ false
    → trim_end_matches is_whitespace (c ∷ s) ≡ c ∷ s
    → (more : List Text) × (cymru_fields (origin_record asn (c ∷ s) rest)
        ≡ decimal asn ∷ (c ∷ s) ∷ more)
unfolding cymru_fields
cymru_fields-origin_record asn c s rest plain start end =
    let (digits, filled) = decimal_lem asn in
    let last : Text = without_quotes (rest ++ codes "\"") in
    let first : Text = decimal asn ++ codes " " in
    let second : Text = codes " " ++ ((c ∷ s) ++ codes " ") in
    let first_plain : IsPlain first =
      space-IsPlain (decimal asn) (Digits-IsPlain (decimal asn) digits) in
    let second_plain : IsPlain second = space-IsPlain (codes " " ++ (c ∷ s)) plain in
    let text : decimal asn ++ (codes " | " ++ ((c ∷ s) ++ (codes " | " ++ (rest ++ codes "\""))))
        ≡ first ++ (b'|' ∷ (second ++ (b'|' ∷ (codes " " ++ (rest ++ codes "\""))))) =
      simp append_assoc in
    let unquoted : without_quotes (origin_record asn (c ∷ s) rest)
        ≡ first ++ (b'|' ∷ (second ++ (b'|' ∷ (codes " " ++ last)))) =
      without_quotes-origin_record asn c s rest
      ∙ ap without_quotes text
      ∙ without_quotes-append first
          (b'|' ∷ (second ++ (b'|' ∷ (codes " " ++ (rest ++ codes "\""))))) first_plain
      ∙ ap (λ (z : Text). first ++ z)
          (without_quotes-bar (second ++ (b'|' ∷ (codes " " ++ (rest ++ codes "\""))))
            ∙ ap (λ (z : Text). b'|' ∷ z)
                (without_quotes-append second (b'|' ∷ (codes " " ++ (rest ++ codes "\"")))
                    second_plain
                  ∙ ap (λ (z : Text). second ++ z)
                      (without_quotes-bar_space (rest ++ codes "\"")))) in
    (
      map trim (split b'|' (codes " " ++ last)),
      ap (λ (z : Text). map trim (split b'|' z)) unquoted
          ∙ ap (map trim) (
              split-bar first (second ++ (b'|' ∷ (codes " " ++ last))) first_plain
              ∙ ap (λ (z : List Text). first ∷ z)
                  (split-bar second (codes " " ++ last) second_plain))
          ∙ ap (λ (z : Text). z ∷ trim second ∷ map trim (split b'|' (codes " " ++ last)))
              (trim-number (decimal asn) digits filled)
          ∙ ap (λ (z : Text). decimal asn ∷ z ∷ map trim (split b'|' (codes " " ++ last)))
              (trim-between c s start end),
    )

-- An origin record gives its number and its prefix.
pub parse_origin-origin_record :
    (asn c : ℕ) (s rest : Text)
    → asn < 2 ^ 32
    → IsPlain (c ∷ s)
    → is_whitespace c ≡ false
    → trim_end_matches is_whitespace (c ∷ s) ≡ c ∷ s
    → parse_origin (origin_record asn (c ∷ s) rest)
      ≡ some (record { asn = asn; prefix = c ∷ s; org = [] })
unfolding parse_origin
parse_origin-origin_record asn c s rest fits plain start end =
    let (more, fields) = cymru_fields-origin_record asn c s rest plain start end in
    let (digits, filled) = decimal_lem asn in
    rw
      (
        fields,
        first_word-Digits (decimal asn) digits filled,
        parse_number-decimal (2 ^ 32 - 1) asn (omega arith) (omega arith),
      )
      refl
