-- ===== src/Probe/Name/RoundTrip.antt =====
-- `read_name` of src/probe.rs reads back what `encode_name` wrote, wherever in a message it
-- stands.
use tunnel_rs.Base.{
  ℕ, zero, suc, ◌+◌, ◌/◌, ◌<◌, ◌≤◌, ◌≡◌, ◌∙◌, sym, refl, ap, inl, inr, true, false, none, some,
  List, [], ◌∷◌, ◌++◌, length, get_elem?, ltb, leb, ◌==◌, nat_eq, if◌then◌else◌, arith, Bool-cases,
  length-append, get_elem?-append, drop-append, take-append,
}
use mathlib.Core.List.{append_assoc}
use tunnel_rs.Probe.Text.{
  Text, is_empty, encoded_too_long, split, join, escape, escaped, push_escaped, Result, ok, err,
  refuse, slice, ◌>>=◌, ◌>>◌,
}
use tunnel_rs.Probe.Name.{
  Cursor, more, done, add_label, take_label, turn, read_loop, read_name, finish, name_rounds,
  label_byte, all_bytes, check_label, encode_labels, encode_name, bare,
}
use tunnel_rs.Probe.Text.Split.{join-split}

-- A label's characters need no escape.
escape-label_byte : (b : ℕ) → label_byte b ≡ true → escape b ≡ b ∷ []
unfolding escape
escape-label_byte b h = ground arith

escaped-label : (label : Text) → all_bytes label_byte label ≡ true → escaped label ≡ label
unfolding escaped
escaped-label [] h = refl
escaped-label (b ∷ bs) h =
    rw (escape-label_byte b (ground arith), escaped-label bs (ground arith)) refl

-- The labels behind a text that is already there, each but the first of all with a dot.
abbrev with_labels : Text → List Text → Text
with_labels out [] = out
with_labels out (label ∷ labels) = with_labels (add_label out label) labels

check_label-inv :
    (label : Text)
    → check_label label ≡ ok tt
    → (0 < length label) × (length label ≤ 63) × (all_bytes label_byte label ≡ true)
unfolding check_label
check_label-inv [] h = cc
check_label-inv (c ∷ s) h = ground arith

encode_labels-inv :
    (label : Text) (labels : List Text) (wire : List ℕ)
    → encode_labels (label ∷ labels) ≡ ok wire
    → (check_label label ≡ ok tt)
      × ((rest : List ℕ) × (encode_labels labels ≡ ok rest)
          × (wire ≡ length label ∷ (label ++ rest)))
unfolding encode_labels
encode_labels-inv label labels wire h = go (check_label label) (encode_labels labels) refl refl h
  where
    go :
        (r : Result (Unit {0})) (q : Result (List ℕ))
        → check_label label ≡ r
        → encode_labels labels ≡ q
        → (r >>= λ _. q >>= λ rest. ok (length label ∷ (label ++ rest))) ≡ ok wire
        → (check_label label ≡ ok tt)
          × ((rest : List ℕ) × (encode_labels labels ≡ ok rest)
              × (wire ≡ length label ∷ (label ++ rest)))
    go (err e) q er eq h = cc
    go (ok tt) (err e) er eq h = cc
    go (ok tt) (ok rest) er eq h = (er, (rest, eq, cc))

slice-append : (xs ys zs : List ℕ) → slice (xs ++ (ys ++ zs)) (length xs) (length ys) ≡ some ys
unfolding slice
slice-append xs ys zs =
    let fits : leb (length xs + length ys) (length (xs ++ (ys ++ zs))) ≡ true =
      ground (arith, length-append xs (ys ++ zs), length-append ys zs) in
    rw (fits, drop-append xs (ys ++ zs), take-append ys zs) refl

length-add_label :
    (out label : Text)
    → all_bytes label_byte label ≡ true
    → length (add_label out label) ≤ length out + 1 + length label
unfolding add_label push_escaped
length-add_label [] label clean = rw (escaped-label label clean) (omega arith)
length-add_label (c ∷ out) label clean =
    rw (escaped-label label clean) omega
      (arith, length-append ((c ∷ out) ++ (b'.' ∷ [])) label, length-append (c ∷ out) (b'.' ∷ []))

-- One label, read at its place.
turn-label :
    (pre label tail : List ℕ) (c : Cursor)
    → c.pos ≡ length pre
    → 0 < length label
    → length label ≤ 63
    → length (add_label c.out label) ≤ 255
    → turn (pre ++ (length label ∷ (label ++ tail))) c
      ≡ more
          (record c { out = add_label c.out label; pos = length (pre ++ (length label ∷ label)) })
unfolding turn take_label
turn-label pre label tail c at pos short fits =
    let buf = pre ++ (length label ∷ (label ++ tail)) in
    let here : get_elem? buf c.pos ≡ some (length label) =
      rw (at, let e : length pre ≡ length pre + 0 = omega arith in e)
        (get_elem?-append pre (length label ∷ (label ++ tail)) 0) in
    let same : buf ≡ (pre ++ (length label ∷ [])) ++ (label ++ tail) =
      sym (append_assoc pre (length label ∷ []) (label ++ tail)) in
    let size : c.pos + 1 ≡ length (pre ++ (length label ∷ [])) =
      omega (arith, length-append pre (length label ∷ [])) in
    let cut : slice buf (c.pos + 1) (length label) ≡ some label =
      rw (size, same) (slice-append (pre ++ (length label ∷ [])) label tail) in
    let low : (length label / 64 == 0) ≡ true = ground arith in
    let some_bytes : (length label == 0) ≡ false = ground arith in
    let not_long : ltb 255 (length (add_label c.out label)) ≡ false = ground arith in
    let end : c.pos + 1 + length label ≡ length (pre ++ (length label ∷ label)) =
      omega (arith, length-append pre (length label ∷ label)) in
    rw (here, turn, low, some_bytes, cut, take_label, not_long, end) refl

turn-end :
    (pre tail : List ℕ) (c : Cursor)
    → c.pos ≡ length pre
    → turn (pre ++ (0 ∷ tail)) c ≡ done (record c { pos = c.pos + 1 })
unfolding turn
turn-end pre tail c at =
    let here : get_elem? (pre ++ (0 ∷ tail)) c.pos ≡ some 0 =
      rw (at, let e : length pre ≡ length pre + 0 = omega arith in e)
        (get_elem?-append pre (0 ∷ tail) 0) in
    rw (here, turn) refl

-- The whole loop over the labels and the byte that ends the name.
read_loop-labels :
    (rounds : ℕ) (pre : List ℕ) (labels : List Text) (wire tail : List ℕ) (c : Cursor)
    → encode_labels labels ≡ ok wire
    → c.pos ≡ length pre
    → length c.out + length wire ≤ 255
    → length wire < rounds
    → read_loop rounds (pre ++ (wire ++ (0 ∷ tail))) c
      ≡ ok (record c { out = with_labels c.out labels; pos = length pre + length wire + 1 })
unfolding read_loop encode_labels
read_loop-labels zero pre labels wire tail c e at room enough = absurd (omega arith)
read_loop-labels (suc rounds) pre [] wire tail c e at room enough =
    let none_left : wire ≡ [] = cc e in
    let end : c.pos + 1 ≡ length pre + 0 + 1 = omega arith in
    rw (none_left, turn-end pre tail c at, read_loop, end) refl
read_loop-labels (suc rounds) pre (label ∷ labels) wire tail c e at room enough =
    let (checked, (rest, more_ok, same)) =
      encode_labels-inv label labels wire (unfold encode_labels in e) in
    let (filled, short, clean) = check_label-inv label checked in
    let grown = length-add_label c.out label clean in
    let size : length wire ≡ suc (length label + length rest) =
      rw same (omega (arith, length-append label rest)) in
    let buf : (pre ++ (wire ++ (0 ∷ tail)))
        ≡ pre ++ (length label ∷ (label ++ (rest ++ (0 ∷ tail)))) =
      rw same (simp append_assoc) in
    let next : Cursor = record c {
      out = add_label c.out label;
      pos = length (pre ++ (length label ∷ label));
    } in
    let step = turn-label pre label (rest ++ (0 ∷ tail)) c at filled short (omega arith) in
    let moved : pre ++ (length label ∷ (label ++ (rest ++ (0 ∷ tail))))
        ≡ (pre ++ (length label ∷ label)) ++ (rest ++ (0 ∷ tail)) =
      simp append_assoc in
    let ih =
      read_loop-labels rounds (pre ++ (length label ∷ label)) labels rest tail next more_ok refl
        (omega arith) (omega arith) in
    let end : length (pre ++ (length label ∷ label)) + length rest + 1
        ≡ length pre + length wire + 1 =
      omega (arith, length-append pre (length label ∷ label)) in
    let first : read_loop (suc rounds) (pre ++ (length label ∷ (label ++ (rest ++ (0 ∷ tail))))) c
        ≡ read_loop rounds (pre ++ (length label ∷ (label ++ (rest ++ (0 ∷ tail))))) next =
      rw (step, read_loop) refl in
    ap (λ (b : List ℕ). read_loop (suc rounds) b c) buf
    ∙ first
    ∙ ap (λ (b : List ℕ). read_loop rounds b next) moved
    ∙ ih
    ∙ ap (λ (n : ℕ). ok (record c { out = with_labels (add_label c.out label) labels; pos = n }))
        end

-- A first label and the others behind it.
join-append :
    (sep : ℕ) (a q : Text) (ps : List Text)
    → join sep ((a ++ (sep ∷ q)) ∷ ps) ≡ a ++ (sep ∷ join sep (q ∷ ps))
unfolding join
join-append sep a q [] = refl
join-append sep a q (p ∷ ps) = simp append_assoc

-- Labels that need no escape and are not empty.
abbrev AllClean : List Text → Type 0
AllClean [] = Unit
AllClean (p ∷ ps) = ((0 < length p) × (all_bytes label_byte p ≡ true)) × AllClean ps

encode_labels-AllClean :
    (labels : List Text) (wire : List ℕ) → encode_labels labels ≡ ok wire → AllClean labels
encode_labels-AllClean [] wire e = tt
encode_labels-AllClean (p ∷ ps) wire e =
    let (checked, (rest, more_ok, same)) = encode_labels-inv p ps wire e in
    let (filled, short, clean) = check_label-inv p checked in
    ((filled, clean), encode_labels-AllClean ps rest more_ok)

with_labels-join :
    (c : ℕ) (out : Text) (labels : List Text)
    → AllClean labels
    → with_labels (c ∷ out) labels ≡ join b'.' ((c ∷ out) ∷ labels)
unfolding add_label push_escaped join
with_labels-join c out [] clean = refl
with_labels-join c out (p ∷ ps) clean =
    rw (escaped-label p clean.0.1, append_assoc (c ∷ out) (b'.' ∷ []) p)
      (with_labels-join c (out ++ (b'.' ∷ p)) ps clean.1 ∙ join-append b'.' (c ∷ out) p ps)

-- The name as it is shown: the root is a dot.
abbrev pub shown : Text → Text
shown [] = b'.' ∷ []
shown (c ∷ s) = c ∷ s

abbrev labels_of : Text → List Text
labels_of s = if is_empty s then [] else split b'.' s

with_labels-all : (ps : List Text) → AllClean ps → with_labels [] ps ≡ join b'.' ps
unfolding add_label push_escaped
with_labels-all [] clean = unfold join in refl
with_labels-all ([] ∷ ps) clean = absurd (omega (arith, clean.0.0))
with_labels-all ((c ∷ p) ∷ ps) clean =
    rw (escaped-label (c ∷ p) clean.0.1) (with_labels-join c p ps clean.1)

with_labels_of :
    (s : Text) (wire : List ℕ)
    → encode_labels (labels_of s) ≡ ok wire
    → with_labels [] (labels_of s) ≡ s
with_labels_of [] wire e = refl
with_labels_of (c ∷ s) wire e =
    with_labels-all (split b'.' (c ∷ s)) (encode_labels-AllClean (split b'.' (c ∷ s)) wire e)
    ∙ join-split b'.' (c ∷ s)

ok-injective : {x y : List ℕ} → ok x ≡ ok y → x ≡ y
ok-injective e = cc

encode_name-inv :
    (name : Text) (wire : List ℕ)
    → encode_name name ≡ ok wire
    → (labels : List ℕ) × (encode_labels (labels_of (bare name)) ≡ ok labels)
      × (wire ≡ labels ++ (0 ∷ []))
      × (length wire ≤ 255)
unfolding encode_name
encode_name-inv name wire h = go (bare name) h
  where
    go :
        (s : Text)
        → ((if is_empty s then ok [] else encode_labels (split b'.' s)) >>= λ labels.
            refuse (ltb 255 (length (labels ++ (0 ∷ [])))) encoded_too_long
            >> ok (labels ++ (0 ∷ [])))
          ≡ ok wire
        → (labels : List ℕ) × (encode_labels (labels_of s) ≡ ok labels)
          × (wire ≡ labels ++ (0 ∷ []))
          × (length wire ≤ 255)
    go [] h = ([], refl, cc h, rw (let e : wire ≡ 0 ∷ [] = cc h in e) (omega arith))
    go (c ∷ s) h = behind (encode_labels (split b'.' (c ∷ s))) refl h
      where
        behind :
            (r : Result (List ℕ))
            → encode_labels (split b'.' (c ∷ s)) ≡ r
            → (r >>= λ labels.
                refuse (ltb 255 (length (labels ++ (0 ∷ [])))) encoded_too_long
                >> ok (labels ++ (0 ∷ [])))
              ≡ ok wire
            → (labels : List ℕ) × (encode_labels (split b'.' (c ∷ s)) ≡ ok labels)
              × (wire ≡ labels ++ (0 ∷ []))
              × (length wire ≤ 255)
        behind (err why) e h = cc
        behind (ok labels) e h = elim (Bool-cases (ltb 255 (length (labels ++ (0 ∷ []))))) [
          | inl long ↦ cc (rw long at h)
          | inr fits ↦
              let same : labels ++ (0 ∷ []) ≡ wire = ok-injective (rw fits at h) in
              (labels, e, sym same, rw (← same) (ground arith))
        ]

finish-shown :
    (s : Text) (at n : ℕ)
    → finish (record { out = s; pos = at; jumps = n; resume = none }) ≡ (shown s, at)
unfolding finish
finish-shown [] at n = refl
finish-shown (c ∷ s) at n = refl

-- A name that `encode_name` accepts is read back from any place in a message: the name without
-- surrounding white space and final dots, and the place behind it.
pub read_name-encode_name :
    (name : Text) (pre wire tail : List ℕ)
    → encode_name name ≡ ok wire
    → read_name (pre ++ (wire ++ tail)) (length pre)
      ≡ ok (shown (bare name), length pre + length wire)
unfolding read_name
read_name-encode_name name pre wire tail h =
    let (labels, coded, same, short) = encode_name-inv name wire h in
    let size : length wire ≡ length labels + 1 = rw same (length-append labels (0 ∷ [])) in
    let buf : pre ++ (wire ++ tail) ≡ pre ++ (labels ++ (0 ∷ tail)) = rw same (simp append_assoc) in
    let start : Cursor = record { out = []; pos = length pre; jumps = 0; resume = none } in
    let run =
      read_loop-labels name_rounds pre (labels_of (bare name)) labels tail start coded refl
        (omega arith) (omega arith) in
    let end : length pre + length labels + 1 ≡ length pre + length wire = omega arith in
    rw (buf, run, with_labels_of (bare name) labels coded, end)
      (ap ok (finish-shown (bare name) _ 0))
