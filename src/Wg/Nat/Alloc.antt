-- ===== src/Wg/Nat/Alloc.antt =====
-- `alloc_port` of src/wg.rs: what it returns, and that it fails at the ceiling alone.
use tunnel_rs.Base.Table.{Table, contains}
use tunnel_rs.Base.{
  ℕ, zero, suc, ◌+◌, ◌-◌, ◌%◌, ◌<◌, ◌≤◌, ◌≡◌, ◌≢◌, refl, ◌↔◌, inl, inr, Bool, true, false, ◌||◌,
  Option, none, some, [], ◌∷◌, length, ltb, leb, nat_beq, nat_eq, if◌then◌else◌, arith, Bool-cases,
}
use tunnel_rs.Wg.Nat.State.{
  RevKey, Binding, Forward, Nat, rev_key_eq, max_bindings, port_lo, port_hi, span, advance,
  reserved, taken, scan, alloc_port,
}
use tunnel_rs.Wg.Nat.Tables.{rev_key, IsValid}

-- The port that stands `i` rounds behind the cursor.
abbrev nth_port : ℕ → ℕ → ℕ
nth_port cursor i = port_lo + (cursor - port_lo + i) % span

advance_bounds : (c : ℕ) → port_lo ≤ c → c ≤ port_hi → (port_lo ≤ advance c) × (advance c ≤ port_hi)
unfolding advance
advance_bounds c lo hi = ground arith

nth_port-advance :
    (c i : ℕ) → port_lo ≤ c → c ≤ port_hi → nth_port (advance c) i ≡ nth_port c (suc i)
unfolding advance
nth_port-advance c i lo hi = ground arith

-- What the loop finds is free and in range, and the cursor stays in range.
scan_found :
    (busy : ℕ → Bool) (rounds c : ℕ)
    → port_lo ≤ c
    → c ≤ port_hi
    → (port_lo ≤ (scan busy rounds c).1)
      × ((scan busy rounds c).1 ≤ port_hi)
      × ((p : ℕ)
          → (scan busy rounds c).0 ≡ some p
          → (busy p ≡ false) × (port_lo ≤ p) × (p ≤ port_hi))
unfolding scan
scan_found busy zero c lo hi = (lo, hi, λ p e. cc)
scan_found busy (suc rounds) c lo hi = elim (Bool-cases (busy c)) [
  | inl b ↦
      rw b
        (scan_found busy rounds (advance c) (advance_bounds c lo hi).0 (advance_bounds c lo hi).1)
  | inr f ↦ rw f ((advance_bounds c lo hi).0, (advance_bounds c lo hi).1, λ p e. ground arith)
]

-- A loop that finds nothing has met only busy ports.
scan_busy :
    (busy : ℕ → Bool) (rounds c : ℕ)
    → port_lo ≤ c
    → c ≤ port_hi
    → (scan busy rounds c).0 ≡ none
    → (i : ℕ) → i < rounds
    → busy (nth_port c i) ≡ true
unfolding scan
scan_busy busy zero c lo hi e i lt = absurd (omega arith)
scan_busy busy (suc rounds) c lo hi e zero lt =
    rw (let here : nth_port c 0 ≡ c = omega arith in here) (ground arith)
scan_busy busy (suc rounds) c lo hi e (suc i) lt = elim (Bool-cases (busy c)) [
  | inr f ↦ absurd (ground arith)
  | inl b ↦ rw (← nth_port-advance c i lo hi) (
      scan_busy busy rounds (advance c) (advance_bounds c lo hi).0 (advance_bounds c lo hi).1
        (ground arith) i (omega arith))
]

-- How many of the first `n` ports of the range satisfy a test.
count : (ℕ → Bool) → ℕ → ℕ
count f zero = 0
count f (suc n) = (if f (port_lo + n) then 1 else 0) + count f n

count_all : (f : ℕ → Bool) (n : ℕ) → ((i : ℕ) → i < n → f (port_lo + i) ≡ true) → count f n ≡ n
unfolding count
count_all f zero h = refl
count_all f (suc n) h = ground (arith, h n, count_all f n (λ i lt. h i (omega arith)))

count_one : (q n : ℕ) → count (λ p. nat_beq q p) n ≤ (if ltb q (port_lo + n) then 1 else 0)
unfolding count
count_one q zero = omega arith
count_one q (suc n) = ground (arith, count_one q n)

count_one-le : (q n : ℕ) → count (λ p. nat_beq q p) n ≤ 1
count_one-le q n = ground (arith, count_one q n)

count_or : (f g : ℕ → Bool) (n : ℕ) → count (λ p. f p || g p) n ≤ count f n + count g n
unfolding count
count_or f g zero = omega arith
count_or f g (suc n) = ground (arith, count_or f g n)

count_mono : (f g : ℕ → Bool) (n : ℕ) → ((p : ℕ) → f p ≡ true → g p ≡ true) → count f n ≤ count g n
unfolding count
count_mono f g zero h = omega arith
count_mono f g (suc n) h = ground (arith, h (port_lo + n), count_mono f g n h)

count_none : (n : ℕ) → count (λ _. false) n ≡ 0
unfolding count
count_none zero = refl
count_none (suc n) = ground (arith, count_none n)

-- A table holds at most as many ports as it has entries.
count-contains :
    (proto : ℕ) (m : Table RevKey Binding) (n : ℕ)
    → count (λ p. contains (rev_key proto p) m) n ≤ length m
unfolding contains
count-contains proto [] n = omega (arith, count_none n)
count-contains proto ((r, b) ∷ m) n = omega (
  arith,
  count_mono (λ p. contains (rev_key proto p) ((r, b) ∷ m))
      (λ p. nat_beq r.port p || contains (rev_key proto p) m) n (λ p h. ground arith),
  count_or (λ p. nat_beq r.port p) (λ p. contains (rev_key proto p) m) n,
  count_one-le r.port n,
  count-contains proto m n,
)

count-reserved : (f : Option Forward) (proto n : ℕ) → count (λ p. reserved f proto p) n ≤ 1
unfolding reserved
count-reserved none proto n = omega (arith, count_none n)
count-reserved (some f) proto n = omega (
  arith,
  count_mono (λ p. reserved (some f) proto p) (λ p. nat_beq f.port p) n (λ p h. ground arith),
  count_one-le f.port n,
)

-- Below the ceiling not every port is taken.
not_all_taken :
    (n : Nat) (proto : ℕ)
    → length n.rev < max_bindings
    → ¬ ((i : ℕ) → i < span → taken n proto (port_lo + i) ≡ true)
not_all_taken n proto room all = omega (
  arith,
  count_all (taken n proto) span all,
  count_mono (taken n proto) (λ p. reserved n.forward proto p || contains (rev_key proto p) n.rev)
      span (λ p h. unfold taken in h),
  count_or (λ p. reserved n.forward proto p) (λ p. contains (rev_key proto p) n.rev) span,
  count-reserved n.forward proto span,
  count-contains proto n.rev span,
)

-- Every port of the range stands at some round.
nth_port_onto :
    (c i : ℕ)
    → port_lo ≤ c
    → c ≤ port_hi
    → i < span
    → nth_port c ((i + span - (c - port_lo)) % span) ≡ port_lo + i
nth_port_onto c i lo hi lt = omega arith

module _ (n : Nat) (proto : ℕ) (v : IsValid n) where
  found : Option ℕ × ℕ
  found = scan (taken n proto) span n.next_port

  found-ne-none : length n.rev < max_bindings → found.0 ≢ none
  unfolding found
  found-ne-none room e = not_all_taken n proto room (λ i lt.
      let c = n.next_port in
      rw (← nth_port_onto c i v.cursor_lo v.cursor_hi lt) (
        scan_busy (taken n proto) span c v.cursor_lo v.cursor_hi e
          ((i + span - (c - port_lo)) % span) (omega arith)))

  -- In a well-formed NAT the allocator fails, for any protocol, exactly if there are 16384
  -- bindings or more, those of all protocols counted together; it never fails for want of a port.
  pub alloc_port-eq-none_iff : ((alloc_port n proto).0 ≡ none) ↔ (16384 ≤ length n.rev)
  unfolding alloc_port
  alloc_port-eq-none_iff = elim (Bool-cases (leb max_bindings (length n.rev))) [
    | inl full ↦ rw full ((λ _. ground arith), (λ _. refl))
    | inr room ↦
        rw room
          ((λ e. absurd (unfold found in found-ne-none (ground arith) e)), (λ full. ground arith))
  ]

  -- A port that the allocator returns is in range, free, and not the forwarded one; the
  -- allocator moves the cursor alone.
  pub alloc_port_lem :
      (p : ℕ)
      → (alloc_port n proto).0 ≡ some p
      → (taken n proto p ≡ false)
        × (port_lo ≤ p)
        × (p ≤ port_hi)
        × (length n.rev < max_bindings)
        × ((alloc_port n proto).1 ≡ record n { next_port = (alloc_port n proto).1.next_port })
  unfolding alloc_port
  alloc_port_lem p = elim (Bool-cases (leb max_bindings (length n.rev))) [
    | inl full ↦ rw full (λ e. cc)
    | inr room ↦ rw room (λ e.
        let s = scan_found (taken n proto) span n.next_port v.cursor_lo v.cursor_hi in
        ((s.2 p e).0, (s.2 p e).1, (s.2 p e).2, ground arith, refl))
  ]

  pub alloc_port-IsValid : IsValid (alloc_port n proto).1
  unfolding alloc_port
  alloc_port-IsValid = elim (Bool-cases (leb max_bindings (length n.rev))) [
    | inl full ↦ rw full v
    | inr room ↦
        let s = scan_found (taken n proto) span n.next_port v.cursor_lo v.cursor_hi in
        rw room (record {
          distinct_fwd = v.distinct_fwd;
          distinct_rev = v.distinct_rev;
          inverse = v.inverse;
          in_range = v.in_range;
          bounded = v.bounded;
          cursor_lo = s.0;
          cursor_hi = s.1;
        })
  ]

-- The allocator leaves the address, valid state or not.
pub alloc_port-wg_addr : (n : Nat) (proto : ℕ) → (alloc_port n proto).1.wg_addr ≡ n.wg_addr
unfolding alloc_port
alloc_port-wg_addr n proto = elim (Bool-cases (leb max_bindings (length n.rev))) [
  | inl full ↦ rw full
  | inr room ↦ rw room
]
