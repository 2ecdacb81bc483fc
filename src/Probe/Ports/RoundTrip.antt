-- ===== src/Probe/Ports/RoundTrip.antt =====
-- Every list fit for a scan can be written as `parse_ports` of src/probe.rs reads it.
use tunnel_rs.Base.{
  ℕ, ◌≡◌, ◌∙◌, refl, sym, ap, true, false, none, some, List, [], ◌∷◌, ◌++◌, map, length, ltb, leb,
  ◌==◌, nat_eq, arith, All,
}
use mathlib.Core.List.{append_assoc, append-nil}
use tunnel_rs.Probe.Ports.{
  max_scan_ports, port, split_once, piece_ports, add_pieces, insert, sort, dedup, parse_ports,
}
use tunnel_rs.Probe.Ports.Laws.{IsPort, IsPortList}
use tunnel_rs.Probe.Ports.Sorting.{Ascending}
use tunnel_rs.Probe.Text.{parse_digits, parse_number, Text, split, join, decimal, ok}
use tunnel_rs.Probe.Text.Decimal.{
  parse_digits-decimal_loop, Digits, decimal_lem, trim-Digits, strip_plus-Digits,
}

split_once-Digits : (s : Text) → Digits s → split_once b'-' s ≡ none
unfolding split_once
split_once-Digits [] d = refl
split_once-Digits (c ∷ s) d =
    let other : (c == b'-') ≡ false = ground arith in
    rw (split_once-Digits s (ground arith), other) refl

split-Digits : (s : Text) → Digits s → split b',' s ≡ s ∷ []
unfolding split
split-Digits [] d = refl
split-Digits (c ∷ s) d =
    let other : (c == b',') ≡ false = ground arith in rw (split-Digits s (ground arith), other) refl

split-behind : (s t : Text) → Digits s → split b',' (s ++ (b',' ∷ t)) ≡ s ∷ split b',' t
unfolding split
split-behind [] t d = refl
split-behind (c ∷ s) t d =
    let other : (c == b',') ≡ false = ground arith in
    rw (split-behind s t (ground arith), other) refl

split-join :
    (n : ℕ) (ns : List ℕ) → split b',' (join b',' (map decimal (n ∷ ns))) ≡ map decimal (n ∷ ns)
unfolding join
split-join n [] = split-Digits (decimal n) (decimal_lem n).0
split-join n (m ∷ ns) =
    split-behind (decimal n) (join b',' (map decimal (m ∷ ns))) (decimal_lem n).0
    ∙ ap (λ (ts : List Text). decimal n ∷ ts) (split-join m ns)

port-decimal : (p : ℕ) → IsPort p → port (decimal p) ≡ ok p
unfolding port parse_number
port-decimal p v =
    let (digits, filled) = decimal_lem p in
    let read : parse_digits 65535 0 (decimal p) ≡ some p =
      unfold decimal in
      (parse_digits-decimal_loop 65535 20 p [] (omega arith) v.1 ∙ unfold parse_digits in refl) in
    let some_port : (p == 0) ≡ false = ground arith in
    rw
      (
        trim-Digits (decimal p) digits,
        strip_plus-Digits (decimal p) digits,
        filled,
        read,
        some_port,
      )
      refl

piece_ports-decimal : (kept p : ℕ) → IsPort p → piece_ports kept (decimal p) ≡ ok (p ∷ [])
unfolding piece_ports
piece_ports-decimal kept p v =
    let (digits, filled) = decimal_lem p in
    rw
      (
        trim-Digits (decimal p) digits,
        filled,
        split_once-Digits (decimal p) digits,
        trim-Digits (decimal p) digits,
        port-decimal p v,
      )
      refl

add_pieces-decimal :
    (ports ns : List ℕ) → All IsPort ns → add_pieces ports (map decimal ns) ≡ ok (ports ++ ns)
unfolding add_pieces
add_pieces-decimal ports [] a = ap ok (sym (append-nil ports))
add_pieces-decimal ports (n ∷ ns) a =
    rw (piece_ports-decimal (length ports) n a.0)
      (add_pieces-decimal (ports ++ (n ∷ [])) ns a.1 ∙ ap ok (append_assoc ports (n ∷ []) ns))

sort-Ascending : (xs : List ℕ) → Ascending xs → sort xs ≡ xs
unfolding sort insert
sort-Ascending [] a = refl
sort-Ascending (x ∷ []) a = refl
sort-Ascending (x ∷ y ∷ ys) a =
    let low : leb x y ≡ true = ground arith in rw (sort-Ascending (y ∷ ys) a.1, insert, low) refl

dedup-id : (xs : List ℕ) → Ascending xs → dedup xs ≡ xs
unfolding dedup
dedup-id [] a = refl
dedup-id (x ∷ []) a = refl
dedup-id (x ∷ y ∷ ys) a =
    let other : (x == y) ≡ false = ground arith in rw (dedup-id (y ∷ ys) a.1, other) refl

-- A list fit for a scan, written as decimals with commas between them, is read back.
pub parse_ports-join :
    (ps : List ℕ) → IsPortList ps → parse_ports (join b',' (map decimal ps)) ≡ ok ps
unfolding parse_ports
parse_ports-join [] v = absurd (omega (arith, v.filled))
parse_ports-join (n ∷ ns) v =
    let few : ltb max_scan_ports (length (n ∷ ns)) ≡ false = ground (arith, v.few) in
    rw
      (
        split-join n ns,
        add_pieces-decimal [] (n ∷ ns) v.ports,
        sort-Ascending (n ∷ ns) v.ascending,
        dedup-id (n ∷ ns) v.ascending,
        few,
      )
      refl
