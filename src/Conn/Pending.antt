-- ===== src/Conn/Pending.antt =====
-- `Pending` of src/conn.rs: server bytes held as the chunks they arrived in, against a flat
-- queue of bytes.
use tunnel_rs.Base.{
  ℕ, zero, suc, ◌+◌, ◌-◌, ◌<◌, ◌≤◌, ◌≡◌, ◌∙◌, sym, ap, refl, inl, inr, Bool, false, List, [], ◌∷◌,
  ◌++◌, length, take, drop, leb, ◌==◌, nat_eq, if◌then◌else◌, arith, Bool-cases, length-append,
  length-drop,
}
use mathlib.Core.List.{append_assoc, append-nil}

pub record Pending : Type 0 where
  pub chunks : List (List ℕ)
  -- bytes of the first chunk that were handed over
  pub head : ℕ
  pub bytes : ℕ

unfoldable pub empty : Pending
empty = record { chunks = []; head = 0; bytes = 0 }

unfoldable pub push : Pending → List ℕ → Pending
push p [] = p
push p (x ∷ v) = record p { bytes = p.bytes + length (x ∷ v); chunks = p.chunks ++ ((x ∷ v) ∷ []) }

unfoldable pub is_empty : Pending → Bool
is_empty p = p.bytes == 0

-- The chunk at the front.
abbrev first : List (List ℕ) → List ℕ
first [] = []
first (c ∷ cs) = c

unfoldable pub front_of : List (List ℕ) → ℕ → List ℕ
front_of [] head = []
front_of (c ∷ cs) head = drop head c

unfoldable pub front : Pending → List ℕ
front p = front_of p.chunks p.head

-- `advance`: the first chunk goes once it is used up.
unfoldable pub settle : List (List ℕ) → ℕ → ℕ → Pending
settle [] head bytes = record { chunks = []; head = head; bytes = bytes }
settle (c ∷ cs) head bytes =
    if leb (length c) head
    then record { chunks = cs; head = 0; bytes = bytes }
    else record { chunks = c ∷ cs; head = head; bytes = bytes }

unfoldable pub advance : Pending → ℕ → Pending
advance p n = settle p.chunks (p.head + n) (p.bytes - n)

-- The bytes that are still to be handed over, in order.
abbrev pub flat : List (List ℕ) → List ℕ
flat [] = []
flat (c ∷ cs) = c ++ flat cs

unfoldable pub contents : Pending → List ℕ
contents p = drop p.head (flat p.chunks)

abbrev pub AllFilled : List (List ℕ) → Type 0
AllFilled [] = Unit {0}
AllFilled (c ∷ cs) = (0 < length c) × AllFilled cs

abbrev pub HeadFits : List (List ℕ) → ℕ → Type 0
HeadFits [] head = head ≡ 0
HeadFits (c ∷ cs) head = head < length c

-- No chunk is empty, the head lies inside the first, and the count is that of the bytes left.
pub record IsValid (p : Pending) : Type 0 where
  pub filled : AllFilled p.chunks
  pub fits : HeadFits p.chunks p.head
  pub counted : p.bytes ≡ length (contents p)

flat-append : (cs ds : List (List ℕ)) → flat (cs ++ ds) ≡ flat cs ++ flat ds
flat-append [] ds = refl
flat-append (c ∷ cs) ds =
    ap (λ (z : List ℕ). c ++ z) (flat-append cs ds) ∙ sym (append_assoc c (flat cs) (flat ds))

drop-append_le : (n : ℕ) (xs ys : List ℕ) → n ≤ length xs → drop n (xs ++ ys) ≡ drop n xs ++ ys
drop-append_le zero xs ys h = refl
drop-append_le (suc n) [] ys h = absurd (omega arith)
drop-append_le (suc n) (x ∷ xs) ys h = drop-append_le n xs ys (omega arith)

drop-length : (n : ℕ) (xs : List ℕ) → length xs ≤ n → drop n xs ≡ []
drop-length zero [] h = refl
drop-length zero (x ∷ xs) h = absurd (omega arith)
drop-length (suc n) [] h = refl
drop-length (suc n) (x ∷ xs) h = drop-length n xs (omega arith)

drop-drop : (n m : ℕ) (xs : List ℕ) → drop m (drop n xs) ≡ drop (n + m) xs
drop-drop zero m xs = rw (let e : 0 + m ≡ m = omega arith in e)
drop-drop (suc n) zero [] = rw (let e : suc n + 0 ≡ suc n = omega arith in e)
drop-drop (suc n) (suc m) [] = rw (let e : suc n + suc m ≡ suc (n + suc m) = omega arith in e)
drop-drop (suc n) m (x ∷ xs) =
    rw (let e : suc n + m ≡ suc (n + m) = omega arith in e) (drop-drop n m xs)

drop-over : (n : ℕ) (xs ys : List ℕ) → length xs ≤ n → drop n (xs ++ ys) ≡ drop (n - length xs) ys
drop-over n [] ys h = rw (let e : n - 0 ≡ n = omega arith in e)
drop-over zero (x ∷ xs) ys h = absurd (omega arith)
drop-over (suc n) (x ∷ xs) ys h =
    rw (let e : suc n - suc (length xs) ≡ n - length xs = omega arith in e)
      (drop-over n xs ys (omega arith))

head-le : (cs : List (List ℕ)) (head : ℕ) → HeadFits cs head → head ≤ length (flat cs)
head-le [] head h = omega arith
head-le (c ∷ cs) head h = omega (arith, length-append c (flat cs))

AllFilled-append :
    (cs : List (List ℕ)) (v : List ℕ) → AllFilled cs → 0 < length v → AllFilled (cs ++ (v ∷ []))
AllFilled-append [] v a h = (h, tt)
AllFilled-append (c ∷ cs) v a h = (a.0, AllFilled-append cs v a.1 h)

HeadFits-append :
    (cs : List (List ℕ)) (v : List ℕ) (head : ℕ)
    → HeadFits cs head
    → 0 < length v
    → HeadFits (cs ++ (v ∷ [])) head
HeadFits-append [] v head a h = omega arith
HeadFits-append (c ∷ cs) v head a h = a

-- `push` puts the new bytes behind those that wait.
pub contents-push : (p : Pending) (v : List ℕ) → IsValid p → contents (push p v) ≡ contents p ++ v
unfolding contents push
contents-push p [] h = sym (append-nil (drop p.head (flat p.chunks)))
contents-push p (x ∷ v) h = rw (
  flat-append p.chunks ((x ∷ v) ∷ []),
  append-nil (x ∷ v),
  drop-append_le p.head (flat p.chunks) (x ∷ v) (head-le p.chunks p.head h.fits),
)

-- `push` keeps the queue well formed.
pub push-IsValid : (p : Pending) (v : List ℕ) → IsValid p → IsValid (push p v)
unfolding push
push-IsValid p [] h = h
push-IsValid p (x ∷ v) h = record {
  filled = AllFilled-append p.chunks (x ∷ v) h.filled (omega arith);
  fits = HeadFits-append p.chunks (x ∷ v) p.head h.fits (omega arith);
  counted =
      rw (contents-push p (x ∷ v) h) omega (arith, h.counted, length-append (contents p) (x ∷ v));
}

front-split :
    (cs : List (List ℕ)) (head bytes : ℕ)
    → HeadFits cs head
    → bytes ≡ length (drop head (flat cs))
    → (bytes == 0) ≡ false
    → (rest : List ℕ) × (drop head (flat cs) ≡ front_of cs head ++ rest)
      × (0 < length (front_of cs head))
unfolding front_of
front-split [] head bytes fit c e = absurd (ground (arith, length-drop head (flat [])))
front-split (c ∷ cs) head bytes fit k e =
    (flat cs, drop-append_le head c (flat cs) (omega arith), omega (arith, length-drop head c))

-- When bytes wait, `front` is a part of them that is not empty.
pub contents-front :
    (p : Pending)
    → IsValid p
    → is_empty p ≡ false
    → (rest : List ℕ) × (contents p ≡ front p ++ rest) × (0 < length (front p))
unfolding contents front is_empty
contents-front p h e = front-split p.chunks p.head p.bytes h.fits h.counted e

contents-settle :
    (cs : List (List ℕ)) (head bytes : ℕ)
    → head ≤ length (first cs)
    → contents (settle cs head bytes) ≡ drop head (flat cs)
unfolding contents settle
contents-settle [] head bytes h = refl
contents-settle (c ∷ cs) head bytes h = elim (Bool-cases (leb (length c) head)) [
  | inl e ↦
      rw (e, drop-over head c (flat cs) (ground arith))
        (let z : head - length c ≡ 0 = omega arith in rw z)
  | inr e ↦ rw e refl
]

front-fits :
    (cs : List (List ℕ)) (head n : ℕ)
    → HeadFits cs head
    → n ≤ length (front_of cs head)
    → head + n ≤ length (first cs)
unfolding front_of
front-fits [] head n fit le = omega arith
front-fits (c ∷ cs) head n fit le = omega (arith, length-drop head c)

contents-advance :
    (p : Pending) (n : ℕ)
    → IsValid p
    → n ≤ length (front p)
    → contents (advance p n) ≡ drop n (contents p)
unfolding advance front contents
contents-advance p n h le =
    contents-settle p.chunks (p.head + n) (p.bytes - n) (front-fits p.chunks p.head n h.fits le)
    ∙ sym (drop-drop p.head n (flat p.chunks))

take-drop_append :
    (n : ℕ) (xs ys : List ℕ) → n ≤ length xs → take n xs ++ drop n (xs ++ ys) ≡ xs ++ ys
take-drop_append zero xs ys h = refl
take-drop_append (suc n) [] ys h = absurd (omega arith)
take-drop_append (suc n) (x ∷ xs) ys h =
    ap (λ (z : List ℕ). x ∷ z) (take-drop_append n xs ys (omega arith))

front-le :
    (cs : List (List ℕ)) (head : ℕ)
    → HeadFits cs head
    → (rest : List ℕ) × (drop head (flat cs) ≡ front_of cs head ++ rest)
unfolding front_of
front-le [] head fit = ([], rw fit refl)
front-le (c ∷ cs) head fit = (flat cs, drop-append_le head c (flat cs) (omega arith))

take-front :
    (p : Pending) (n : ℕ)
    → IsValid p
    → n ≤ length (front p)
    → take n (front p) ++ drop n (contents p) ≡ contents p
unfolding front contents
take-front p n h le =
    let (rest, split) = front-le p.chunks p.head h.fits in
    rw split (take-drop_append n (front_of p.chunks p.head) rest le)

settle-AllFilled :
    (cs : List (List ℕ)) (head bytes : ℕ) → AllFilled cs → AllFilled (settle cs head bytes).chunks
unfolding settle
settle-AllFilled [] head bytes h = h
settle-AllFilled (c ∷ cs) head bytes h = elim (Bool-cases (leb (length c) head)) [
  | inl e ↦ rw e (h.1)
  | inr e ↦ rw e h
]

start-HeadFits : (cs : List (List ℕ)) → AllFilled cs → HeadFits cs 0
start-HeadFits [] h = refl
start-HeadFits (c ∷ cs) h = h.0

settle-HeadFits :
    (cs : List (List ℕ)) (head bytes : ℕ)
    → AllFilled cs
    → head ≤ length (first cs)
    → HeadFits (settle cs head bytes).chunks (settle cs head bytes).head
unfolding settle
settle-HeadFits [] head bytes h le = omega arith
settle-HeadFits (c ∷ cs) head bytes h le = elim (Bool-cases (leb (length c) head)) [
  | inl e ↦ rw e (start-HeadFits cs (h.1))
  | inr e ↦ rw e (ground arith)
]

settle-bytes : (cs : List (List ℕ)) (head b : ℕ) → (settle cs head b).bytes ≡ b
unfolding settle
settle-bytes [] head b = refl
settle-bytes (c ∷ cs) head b = elim (Bool-cases (leb (length c) head)) [
  | inl e ↦ rw e refl
  | inr e ↦ rw e refl
]

advance-IsValid : (p : Pending) (n : ℕ) → IsValid p → n ≤ length (front p) → IsValid (advance p n)
unfolding advance front contents
advance-IsValid p n h le = record {
  filled = settle-AllFilled p.chunks (p.head + n) (p.bytes - n) h.filled;
  fits =
      settle-HeadFits p.chunks (p.head + n) (p.bytes - n) h.filled
        (front-fits p.chunks p.head n h.fits le);
  counted = rw (contents-advance p n h le) omega (
    arith,
    settle-bytes p.chunks (p.head + n) (p.bytes - n),
    length-drop n (contents p),
    h.counted,
  );
}

-- `advance` by no more bytes than the front of a well-formed queue holds hands over the first of
-- the bytes that wait and leaves the others, in order, in a well-formed queue again: its first
-- chunk has bytes to hand over, no chunk is empty, and its count is that of the bytes left.
pub advance_lem :
    (p : Pending) (n : ℕ)
    → IsValid p
    → n ≤ length (front p)
    → (take n (front p) ++ contents (advance p n) ≡ contents p) × IsValid (advance p n)
advance_lem p n h le =
    (rw (contents-advance p n h le) (take-front p n h le), advance-IsValid p n h le)
