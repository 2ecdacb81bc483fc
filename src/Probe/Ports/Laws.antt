-- ===== src/Probe/Ports/Laws.antt =====
-- What `parse_ports` of src/probe.rs promises of the list that it returns.
use tunnel_rs.Base.{
  ℕ, ◌+◌, ◌-◌, ◌*◌, ◌<◌, ◌≤◌, ◌≡◌, ◌∙◌, refl, sym, ap, inl, inr, Bool, true, false, ◌&&◌, ◌||◌,
  Option, none, some, List, [], ◌∷◌, ◌++◌, length, ltb, leb, ◌==◌, nat_eq, if◌then◌else◌, arith,
  All, Bool-cases, Option-cases,
}
use tunnel_rs.Probe.Ports.{
  max_scan_ports, port, split_once, range, range_ports, piece_ports, add_pieces, sort, dedup,
  parse_ports,
}
use tunnel_rs.Probe.Ports.Sorting.{
  has, has-append, has-range, has-sort, has-dedup, Ascending, sort-Sorted, dedup-Ascending,
}
use tunnel_rs.Probe.Text.{
  parse_digits, parse_number, strip_plus, Text, is_empty, trim, split, Result, ok, err, ok_or,
  ◌>>=◌, bind_inv, refuse_inv, ok-injective, not_a_port, port_is_zero,
}

-- A port number that is not 0.
abbrev pub IsPort : ℕ → Type 0
IsPort p = (1 ≤ p) × (p ≤ 65535)

parse_digits-le :
    (n : ℕ) (s : Text) (p : ℕ) → n ≤ 65535 → parse_digits 65535 n s ≡ some p → p ≤ 65535
unfolding parse_digits
parse_digits-le n [] p low h = ground arith
parse_digits-le n (c ∷ s) p low h = ground (arith, parse_digits-le (n * 10 + (c - b'0')) s p)

port-IsPort : (s : Text) (p : ℕ) → port s ≡ ok p → IsPort p
unfolding port parse_number
port-IsPort s p h =
    let (q, read, h1) = bind_inv (ok_or (parse_number 65535 (trim s)) not_a_port) _ p h in
    let (some_port, h2) = refuse_inv (q == 0) port_is_zero (ok q) p h1 in
    let same : q ≡ p = ok-injective h2 in
    let low : q ≤ 65535 = number (strip_plus (trim s)) q read in ground arith
  where
    number :
        (t : Text) (n : ℕ)
        → ok_or (if is_empty t then none else parse_digits 65535 0 t) not_a_port ≡ ok n
        → n ≤ 65535
    number [] n e = cc
    number (c ∷ t) n e = elim (Option-cases (parse_digits 65535 0 (c ∷ t))) [
      | inl bad ↦ cc (rw bad at e)
      | inr (m, read) ↦
          let m_low = parse_digits-le 0 (c ∷ t) m (omega arith) read in
          let same : m ≡ n = ok-injective (rw read at e) in rw (← same) m_low
    ]

-- Which ports a piece of the list names: itself, or those from its first to its last.
abbrev is_it : Result ℕ → ℕ → Bool
is_it (err why) p = false
is_it (ok q) p = q == p

abbrev within : Result ℕ → Result ℕ → ℕ → Bool
within (err why) hi p = false
within (ok lo) (err why) p = false
within (ok lo) (ok hi) p = leb lo p && leb p hi

unfoldable pub covers : Text → ℕ → Bool
covers piece p = if is_empty (trim piece) then false else elim (split_once b'-' (trim piece)) [
  | some (low, high) ↦ within (port low) (port high) p
  | none ↦ is_it (port (trim piece)) p
]

abbrev pub any_covers : List Text → ℕ → Bool
any_covers [] p = false
any_covers (piece ∷ pieces) p = covers piece p || any_covers pieces p

covers-IsPort : (piece : Text) (p : ℕ) → covers piece p ≡ true → IsPort p
unfolding covers
covers-IsPort piece p h = elim (Bool-cases (is_empty (trim piece))) [
  | inl empty ↦ cc (rw empty at h)
  | inr filled ↦ go (split_once b'-' (trim piece)) (rw filled at h)
]
  where
    go :
        (o : Option (Text × Text))
        → elim o [
          | some (low, high) ↦ within (port low) (port high) p
          | none ↦ is_it (port (trim piece)) p
        ]
          ≡ true
        → IsPort p
    go none e = single (port (trim piece)) refl e
      where
        single : (r : Result ℕ) → port (trim piece) ≡ r → is_it r p ≡ true → IsPort p
        single (err why) f e = cc
        single (ok q) f e = let v = port-IsPort (trim piece) q f in ground arith
    go (some (low, high)) e = both (port low) (port high) refl refl e
      where
        both : (r q : Result ℕ) → port low ≡ r → port high ≡ q → within r q p ≡ true → IsPort p
        both (err why) q f g e = cc
        both (ok lo) (err why) f g e = cc
        both (ok lo) (ok hi) f g e =
            let v = port-IsPort low lo f in let w = port-IsPort high hi g in ground arith

range_ports-within :
    (kept : ℕ) (low high : Text) (ps : List ℕ) (p : ℕ)
    → range_ports kept low high ≡ ok ps
    → has ps p ≡ within (port low) (port high) p
unfolding range_ports
range_ports-within kept low high ps p h =
    let (lo, from, h1) = bind_inv (port low) _ ps h in
    let (hi, upto, h2) = bind_inv (port high) _ ps h1 in
    let (forward, h3) = refuse_inv (ltb hi lo) _ _ ps h2 in
    let (few, h4) = refuse_inv (ltb max_scan_ports (hi - lo + 1 + kept)) _ _ ps h3 in
    let same : range lo (hi - lo + 1) ≡ ps = ok-injective h4 in
    rw (← same, from, upto) (ground (arith, has-range lo (hi - lo + 1) p))

piece_ports-covers :
    (kept : ℕ) (piece : Text) (ps : List ℕ) (p : ℕ)
    → piece_ports kept piece ≡ ok ps
    → has ps p ≡ covers piece p
unfolding piece_ports covers
piece_ports-covers kept piece ps p h = elim (Bool-cases (is_empty (trim piece))) [
  | inl empty ↦ let same : [] ≡ ps = ok-injective (rw empty at h) in rw (empty, ← same) refl
  | inr filled ↦ rw filled (go (split_once b'-' (trim piece)) (rw filled at h))
]
  where
    go :
        (o : Option (Text × Text))
        → elim o [
          | some (low, high) ↦ range_ports kept low high
          | none ↦ port (trim piece) >>= λ q. ok (q ∷ [])
        ]
          ≡ ok ps
        → has ps p ≡ elim o [
          | some (low, high) ↦ within (port low) (port high) p
          | none ↦ is_it (port (trim piece)) p
        ]
    go none e =
        let (q, read, e1) = bind_inv (port (trim piece)) _ ps e in
        let same : q ∷ [] ≡ ps = ok-injective e1 in rw (read, ← same) (ground arith)
    go (some (low, high)) e = range_ports-within kept low high ps p e

add_pieces-covers :
    (ports : List ℕ) (pieces : List Text) (ps : List ℕ) (p : ℕ)
    → add_pieces ports pieces ≡ ok ps
    → has ps p ≡ (has ports p || any_covers pieces p)
unfolding add_pieces
add_pieces-covers ports [] ps p h = let same : ports ≡ ps = ok-injective h in rw same (ground arith)
add_pieces-covers ports (piece ∷ pieces) ps p h =
    let (more, read, h1) = bind_inv (piece_ports (length ports) piece) _ ps h in
    ground (
      arith,
      add_pieces-covers (ports ++ more) pieces ps p h1,
      has-append ports more p,
      piece_ports-covers (length ports) piece more p read,
    )

All-has : (xs : List ℕ) → ((p : ℕ) → has xs p ≡ true → IsPort p) → All IsPort xs
All-has [] h = tt
All-has (x ∷ xs) h = (h x (ground arith), All-has xs (λ p there. h p (ground arith)))

-- A list that a scan accepts: ports in strictly ascending order, at least one and not too many.
pub record IsPortList (ps : List ℕ) : Type 0 where
  pub ascending : Ascending ps
  pub ports : All IsPort ps
  pub filled : 0 < length ps
  pub few : length ps ≤ max_scan_ports

parse_ports-inv :
    (spec : Text) (ps : List ℕ)
    → parse_ports spec ≡ ok ps
    → (listed : List ℕ) × (add_pieces [] (split b',' spec) ≡ ok listed)
      × (ps ≡ dedup (sort listed))
      × (0 < length ps)
      × (length ps ≤ max_scan_ports)
unfolding parse_ports
parse_ports-inv spec ps h =
    let (listed, read, h1) = bind_inv (add_pieces [] (split b',' spec)) _ ps h in
    let (filled, h2) = refuse_inv (is_empty (dedup (sort listed))) _ _ ps h1 in
    let (few, h3) = refuse_inv (ltb max_scan_ports (length (dedup (sort listed)))) _ _ ps h2 in
    let same : dedup (sort listed) ≡ ps = ok-injective h3 in
    (listed, read, sym same, positive ps (rw (← same) filled), rw (← same) (ground arith))
  where
    positive : (xs : List ℕ) → is_empty xs ≡ false → 0 < length xs
    positive [] e = cc
    positive (x ∷ xs) e = omega arith

-- The ports of the list are those that its pieces name, no more and no fewer.
pub parse_ports-covers :
    (spec : Text) (ps : List ℕ) (p : ℕ)
    → parse_ports spec ≡ ok ps
    → has ps p ≡ any_covers (split b',' spec) p
parse_ports-covers spec ps p h =
    let (listed, read, same, filled, few) = parse_ports-inv spec ps h in
    ap (λ (xs : List ℕ). has xs p) same
    ∙ has-dedup (sort listed) p
    ∙ has-sort listed p
    ∙ add_pieces-covers [] (split b',' spec) listed p read

any_covers-IsPort : (pieces : List Text) (p : ℕ) → any_covers pieces p ≡ true → IsPort p
any_covers-IsPort [] p h = cc
any_covers-IsPort (piece ∷ pieces) p h = elim (Bool-cases (covers piece p)) [
  | inl here ↦ covers-IsPort piece p here
  | inr other ↦ any_covers-IsPort pieces p (rw other at h)
]

-- What is accepted is a list fit for a scan.
pub parse_ports-IsPortList : (spec : Text) (ps : List ℕ) → parse_ports spec ≡ ok ps → IsPortList ps
parse_ports-IsPortList spec ps h =
    let (listed, read, same, filled, few) = parse_ports-inv spec ps h in
    record {
      ascending = rw same (dedup-Ascending (sort listed) (sort-Sorted listed));
      ports = All-has ps λ p there.
          any_covers-IsPort (split b',' spec) p (rw (← parse_ports-covers spec ps p h) there);
      filled = filled;
      few = few;
    }
