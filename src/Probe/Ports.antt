-- ===== src/Probe/Ports.antt =====
-- The port list of a scan in src/probe.rs: `parse_ports`, with the parsing of a number, the sort
-- and the removal of repeats of the standard library.
pub mod Laws
pub mod RoundTrip
pub mod Sorting
use tunnel_rs.Base.{
  ℕ, zero, suc, ◌+◌, ◌-◌, ◌*◌, ◌/◌, ◌%◌, ◌<◌, ◌≤◌, Bool, true, false, ◌&&◌, ◌||◌, Option, none,
  some, List, [], ◌∷◌, ◌++◌, length, ltb, leb, ◌==◌, nat_eq, if◌then◌else◌,
}
use tunnel_rs.Probe.Text.{
  parse_number, Text, is_empty, trim, split, Error, not_a_port, port_is_zero, runs_backwards,
  too_many_ports, no_ports, Result, ok, err, ok_or, refuse, ◌>>=◌, ◌>>◌,
}

abbrev pub max_scan_ports : ℕ
max_scan_ports = 1024

-- The closure `port`.
unfoldable pub port : Text → Result ℕ
unfolding parse_number
port s =
    ok_or (parse_number 65535 (trim s)) not_a_port >>= λ p. refuse (p == 0) port_is_zero >> ok p

unfoldable pub split_once : ℕ → Text → Option (Text × Text)
split_once sep [] = none
split_once sep (c ∷ s) =
    let rest = split_once sep s in
    if c == sep
    then some ([], s)
    else elim rest [ none ↦ none | some (before, behind) ↦ some (c ∷ before, behind) ]

-- `lo..=hi` by its first number and how many they are.
unfoldable pub range : ℕ → ℕ → List ℕ
range lo zero = []
range lo (suc n) = lo ∷ range (lo + 1) n

-- A range that is not empty, in front of which `kept` ports stand.
unfoldable pub range_ports : ℕ → Text → Text → Result (List ℕ)
unfolding port range
range_ports kept low high = do
  lo ← port low
  hi ← port high
  refuse (ltb hi lo) runs_backwards
  refuse (ltb max_scan_ports (hi - lo + 1 + kept)) too_many_ports
  ok (range lo (hi - lo + 1))

-- One round of the loop over the pieces: the ports that it adds to the `kept` ones.
unfoldable pub piece_ports : ℕ → Text → Result (List ℕ)
unfolding range_ports split_once
piece_ports kept piece =
    if is_empty (trim piece) then ok [] else elim (split_once b'-' (trim piece)) [
      | some (low, high) ↦ range_ports kept low high
      | none ↦ port (trim piece) >>= λ p. ok (p ∷ [])
    ]

unfoldable pub add_pieces : List ℕ → List Text → Result (List ℕ)
unfolding piece_ports
add_pieces ports [] = ok ports
add_pieces ports (piece ∷ pieces) =
    piece_ports (length ports) piece >>= λ more. add_pieces (ports ++ more) pieces

-- `sort_unstable`
unfoldable pub insert : ℕ → List ℕ → List ℕ
insert n [] = n ∷ []
insert n (x ∷ xs) = let rest = insert n xs in if leb n x then n ∷ x ∷ xs else x ∷ rest

unfoldable pub sort : List ℕ → List ℕ
unfolding insert
sort [] = []
sort (x ∷ xs) = insert x (sort xs)

-- `dedup`: a number in front of one that equals it goes.
abbrev pub unless_first : ℕ → List ℕ → List ℕ
unless_first x [] = x ∷ []
unless_first x (y ∷ ys) = if x == y then y ∷ ys else x ∷ y ∷ ys

unfoldable pub dedup : List ℕ → List ℕ
dedup [] = []
dedup (x ∷ xs) = unless_first x (dedup xs)

-- `parse_ports`
unfoldable pub parse_ports : Text → Result (List ℕ)
unfolding add_pieces sort dedup
parse_ports spec = do
  ports ← add_pieces [] (split b',' spec)
  refuse (is_empty (dedup (sort ports))) no_ports
  refuse (ltb max_scan_ports (length (dedup (sort ports)))) too_many_ports
  ok (dedup (sort ports))
