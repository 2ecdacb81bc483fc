-- ===== src/Probe/Name/Bounds.antt =====
-- What bounds `read_name` of src/probe.rs: its rounds, the length of a name and its characters,
-- and where it leaves the caller's cursor.
use tunnel_rs.Base.{
  ℕ, zero, suc, ◌+◌, ◌-◌, ◌*◌, ◌/◌, ◌%◌, ◌<◌, ◌≤◌, ◌≡◌, ◌≢◌, refl, inl, inr, Option, none, some,
  List, [], ◌∷◌, ◌++◌, length, take, drop, get_elem?, ltb, leb, ◌==◌, nat_eq, arith, Bool-cases,
  Option-cases, All, All-append, All-take, All-drop, length-append, length-take, length-drop,
  get_elem?-lt-length,
}
use mathlib.Core.Option.{some-injective}
use tunnel_rs.Probe.Text.{
  Text, escape, escaped, push_escaped, Error, out_of_rounds, Result, ok, err, slice, ◌>>=◌,
}
use tunnel_rs.Probe.Name.{
  add_label, Cursor, Turn, more, done, fail, take_label, follow_pointer, turn, read_loop, read_name,
  finish, or_else, max_name_jumps, name_rounds,
}

abbrev pub IsByte : ℕ → Type 0
IsByte b = b < 256

-- A printable ASCII character.
abbrev pub IsPrintable : ℕ → Type 0
IsPrintable c = (0x20 ≤ c) × (c ≤ 0x7e)

escape_lem : (b : ℕ) → IsByte b → All IsPrintable (escape b) × (1 ≤ length (escape b))
unfolding escape
escape_lem b h = ground arith

-- Escaping shortens nothing and leaves printable characters alone.
pub escaped_lem :
    (bs : List ℕ) → All IsByte bs → All IsPrintable (escaped bs) × (length bs ≤ length (escaped bs))
unfolding escaped
escaped_lem [] a = (tt, omega arith)
escaped_lem (b ∷ bs) a =
    let first = escape_lem b a.0 in
    let rest = escaped_lem bs a.1 in
    (
      All-append IsPrintable (escape b) (escaped bs) first.0 rest.0,
      omega (arith, length-append (escape b) (escaped bs)),
    )

pub slice_lem :
    (buf : List ℕ) (at n : ℕ) (l : List ℕ)
    → slice buf at n ≡ some l
    → (at + n ≤ length buf) × (length l ≡ n) × (All IsByte buf → All IsByte l)
unfolding slice
slice_lem buf at n l h = elim (Bool-cases (leb (at + n) (length buf))) [
  | inl fits ↦
      let same : l ≡ take n (drop at buf) = ground arith in
      (
        ground arith,
        rw same (ground (arith, length-take n (drop at buf), length-drop at buf)),
        λ a. rw same (All-take IsByte n (drop at buf) (All-drop IsByte at buf a)),
      )
  | inr over ↦ cc (rw over at h)
]

-- What holds of the loop's variables, started at `start`.
pub record IsSound (buf : List ℕ) (start : ℕ) (c : Cursor) : Type 0 where
  pub short : length c.out ≤ 255
  pub printable : All IsPrintable c.out
  pub few : c.jumps ≤ max_name_jumps
  pub forward : c.resume ≡ none → start ≤ c.pos
  pub resumed : (r : ℕ) → c.resume ≡ some r → (start < r) × (r ≤ length buf)

-- The rounds that can still come.
abbrev pub remaining : Cursor → ℕ
remaining c = (255 - length c.out) + (max_name_jumps - c.jumps)

add_label_lem :
    (out label : Text)
    → All IsPrintable out
    → All IsByte label
    → 0 < length label
    → All IsPrintable (add_label out label) × (length out < length (add_label out label))
unfolding add_label push_escaped
add_label_lem [] label p b pos = let e = escaped_lem label b in (e.0, omega arith)
add_label_lem (c ∷ out) label p b pos =
    let e = escaped_lem label b in
    (
      All-append IsPrintable ((c ∷ out) ++ (b'.' ∷ [])) (escaped label)
          (All-append IsPrintable (c ∷ out) (b'.' ∷ []) p (omega arith)) e.0,
      omega (
        arith,
        length-append ((c ∷ out) ++ (b'.' ∷ [])) (escaped label),
        length-append (c ∷ out) (b'.' ∷ []),
      ),
    )

take_label-IsSound :
    (buf : List ℕ) (start : ℕ) (c next : Cursor) (len : ℕ)
    → All IsByte buf
    → IsSound buf start c
    → 0 < len
    → take_label buf c len ≡ more next
    → IsSound buf start next × (remaining next < remaining c)
unfolding take_label
take_label-IsSound buf start c next len bytes s pos h =
    elim (Option-cases (slice buf (c.pos + 1) len)) [
      | inl e ↦ cc (rw (e, take_label) at h)
      | inr (label, e) ↦
          let (inside, size, all) = slice_lem buf (c.pos + 1) len label e in
          let (clean, longer) = add_label_lem c.out label s.printable (all bytes) (omega arith) in
          elim (Bool-cases (ltb 255 (length (add_label c.out label)))) [
            | inl long ↦ cc (rw (e, take_label, long) at h)
            | inr fits ↦
                let same : next ≡ record c { out = add_label c.out label; pos = c.pos + 1 + len } =
                  cc (rw (e, take_label, fits) at h) in
                rw same (
                  record {
                    short = ground arith;
                    printable = clean;
                    few = s.few;
                    forward = λ n. omega (arith, s.forward n);
                    resumed = s.resumed;
                  },
                  ground arith,
                )
          ]
    ]

resume_IsSound :
    (buf : List ℕ) (start : ℕ) (c : Cursor)
    → IsSound buf start c
    → c.pos + 1 < length buf
    → (r : ℕ) → or_else c.resume (c.pos + 2) ≡ r
    → (start < r) × (r ≤ length buf)
resume_IsSound buf start c s there r e = elim (Option-cases c.resume) [
  | inl n ↦ let at : c.pos + 2 ≡ r = rw (← e, n) refl in omega (arith, s.forward n)
  | inr (q, n) ↦ let at : q ≡ r = rw (← e, n) refl in rw (← at) (s.resumed q n)
]

follow_pointer-IsSound :
    (buf : List ℕ) (start : ℕ) (c next : Cursor) (len : ℕ)
    → IsSound buf start c
    → follow_pointer buf c len ≡ more next
    → IsSound buf start next × (remaining next < remaining c)
unfolding follow_pointer
follow_pointer-IsSound buf start c next len s h = elim (Option-cases (get_elem? buf (c.pos + 1))) [
  | inl e ↦ cc (rw (e, follow_pointer) at h)
  | inr (lo, e) ↦
      let there = get_elem?-lt-length buf (c.pos + 1) e in
      elim (Bool-cases (ltb max_name_jumps (c.jumps + 1))) [
        | inl loops ↦ cc (rw (e, follow_pointer, loops) at h)
        | inr fine ↦ elim (Bool-cases (leb (length buf) (len % 64 * 256 + lo))) [
          | inl past ↦ cc (rw (e, follow_pointer, fine, past) at h)
          | inr inside ↦
              let back = some (or_else c.resume (c.pos + 2)) in
              let same : next
                  ≡ record c { pos = len % 64 * 256 + lo; jumps = c.jumps + 1; resume = back } =
                cc (rw (e, follow_pointer, fine, inside) at h) in
              rw same (
                record {
                  short = s.short;
                  printable = s.printable;
                  few = ground arith;
                  forward = λ n. cc;
                  resumed =
                      λ r same_r. resume_IsSound buf start c s there r (some-injective _ _ same_r);
                },
                ground arith,
              )
        ]
      ]
]

turn-more :
    (buf : List ℕ) (start : ℕ) (c next : Cursor)
    → All IsByte buf
    → IsSound buf start c
    → turn buf c ≡ more next
    → IsSound buf start next × (remaining next < remaining c)
unfolding turn
turn-more buf start c next bytes s h = elim (Option-cases (get_elem? buf c.pos)) [
  | inl e ↦ cc (rw (e, turn) at h)
  | inr (len, e) ↦ elim (Bool-cases (len / 64 == 0)) [
    | inl label ↦ elim (Bool-cases (len == 0)) [
      | inl end ↦ cc (rw (e, turn, label, end) at h)
      | inr full ↦
          take_label-IsSound buf start c next len bytes s (ground arith)
            (rw (e, turn, label, full) at h)
    ]
    | inr other ↦ elim (Bool-cases (len / 64 == 3)) [
      | inl pointer ↦
          follow_pointer-IsSound buf start c next len s (rw (e, turn, other, pointer) at h)
      | inr reserved ↦ cc (rw (e, turn, other, reserved) at h)
    ]
  ]
]

turn-fail : (buf : List ℕ) (c : Cursor) (why : Error) → turn buf c ≡ fail why → why ≢ out_of_rounds
unfolding turn take_label follow_pointer
turn-fail buf c why h e = ground arith

turn-done :
    (buf : List ℕ) (c end : Cursor)
    → turn buf c ≡ done end
    → (end ≡ record c { pos = c.pos + 1 }) × (c.pos < length buf)
unfolding turn take_label follow_pointer
turn-done buf c end h = elim (Option-cases (get_elem? buf c.pos)) [
  | inl e ↦ cc (rw (e, turn) at h)
  | inr (len, e) ↦ ground (arith, get_elem?-lt-length buf c.pos e)
]

-- A decoded name and where it ends: from 1 to 255 characters, all of them printable ASCII, and
-- a cursor that has moved forward and not past the end of the message.
pub record IsName (buf : List ℕ) (start : ℕ) (r : Text × ℕ) : Type 0 where
  pub printable : All IsPrintable r.0
  pub filled : 1 ≤ length r.0
  pub short : length r.0 ≤ 255
  pub ahead : start < r.1
  pub inside : r.1 ≤ length buf

finish-IsName :
    (buf : List ℕ) (start : ℕ) (c end : Cursor)
    → IsSound buf start c
    → end ≡ record c { pos = c.pos + 1 }
    → c.pos < length buf
    → IsName buf start (finish end)
unfolding finish
finish-IsName buf start c end s e there =
    rw e (go c.out c.resume s.printable s.short s.forward s.resumed)
  where
    go :
        (out : Text) (resume : Option ℕ)
        → All IsPrintable out
        → length out ≤ 255
        → (resume ≡ none → start ≤ c.pos)
        → ((r : ℕ) → resume ≡ some r → (start < r) × (r ≤ length buf))
        → IsName buf start
            (finish (record { out = out; pos = c.pos + 1; jumps = c.jumps; resume = resume }))
    go [] none p l f r = let z = f refl in omega arith
    go [] (some q) p l f r = let z = r q refl in omega arith
    go (x ∷ out) none p l f r =
        let z = f refl in
        record {
          printable = p;
          filled = omega arith;
          short = l;
          ahead = omega arith;
          inside = omega arith;
        }
    go (x ∷ out) (some q) p l f r =
        let z = r q refl in
        record { printable = p; filled = omega arith; short = l; ahead = z.0; inside = z.1 }

-- A name is decoded, or an error of the source is found.
abbrev pub Decides : List ℕ → ℕ → Result (Text × ℕ) → Type 0
Decides buf start (ok r) = IsName buf start r
Decides buf start (err why) = why ≢ out_of_rounds

read_loop-Decides :
    (rounds : ℕ) (buf : List ℕ) (start : ℕ) (c : Cursor)
    → All IsByte buf
    → IsSound buf start c
    → remaining c < rounds
    → Decides buf start (read_loop rounds buf c >>= λ z. ok (finish z))
unfolding read_loop
read_loop-Decides zero buf start c bytes s enough = absurd (omega arith)
read_loop-Decides (suc rounds) buf start c bytes s enough =
    go (turn buf c) refl (λ next. read_loop-Decides rounds buf start next bytes)
  where
    go :
        (t : Turn)
        → turn buf c ≡ t
        → ((next : Cursor)
            → IsSound buf start next
            → remaining next < rounds
            → Decides buf start (read_loop rounds buf next >>= λ z. ok (finish z)))
        → Decides buf start (read_loop (suc rounds) buf c >>= λ z. ok (finish z))
    go (more next) e again =
        let (sound, fewer) = turn-more buf start c next bytes s e in
        rw (read_loop, e) (again next sound (omega arith))
    go (done end) e again =
        let (same, there) = turn-done buf c end e in
        rw (read_loop, e) (finish-IsName buf start c end s same there)
    go (fail why) e again = rw (read_loop, e) (turn-fail buf c why e)

-- On any bytes and from any start `read_name` ends within its rounds, jumps included: with an
-- error of the source, or with a name of 1 to 255 characters, all of them printable ASCII, and
-- a cursor that is past the start and not past the end of the message.
pub read_name-Decides :
    (buf : List ℕ) (start : ℕ) → All IsByte buf → Decides buf start (read_name buf start)
unfolding read_name
read_name-Decides buf start bytes =
    read_loop-Decides name_rounds buf start
      (record { out = []; pos = start; jumps = 0; resume = none }) bytes
      (record {
        short = omega arith;
        printable = tt;
        few = omega arith;
        forward = λ _. omega arith;
        resumed = λ r e. cc;
      })
      (omega arith)
