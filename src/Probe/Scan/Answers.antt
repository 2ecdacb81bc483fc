-- ===== src/Probe/Scan/Answers.antt =====
-- What the ports of a scan in src/probe.rs answer, and the progress that a list of them makes.
use tunnel_rs.Base.{
  ℕ, ◌+◌, ◌≡◌, refl, sym, ap, Bool, true, false, List, [], ◌∷◌, ◌++◌, length, nat_eq, arith,
  length-append,
}
use mathlib.Core.List.{append_assoc, append-nil}
use tunnel_rs.Probe.Probing.{PortResult, Connect, connected, refused, failed, probe_port}
use tunnel_rs.Probe.Scan.{Progress, found_list, report}
use tunnel_rs.Probe.Scan.Tally.{tally, tally-append}

add_zero : (n : ℕ) → n + 0 ≡ n
add_zero n = omega arith

tally-yes : (f : ℕ → Bool) (p : ℕ) → f p ≡ true → tally f (p ∷ []) ≡ 1
unfolding tally
tally-yes f p h = rw h refl

tally-no : (f : ℕ → Bool) (p : ℕ) → f p ≡ false → tally f (p ∷ []) ≡ 0
unfolding tally
tally-no f p h = rw h refl

-- The kinds of answer.
abbrev pub opens : Connect → Bool
opens (connected g) = true
opens other = false

abbrev pub closes : Connect → Bool
closes refused = true
closes other = false

abbrev pub is_silent : Connect → Bool
is_silent failed = true
is_silent other = false

module _ (network : ℕ → Connect) where
  abbrev pub is_open : ℕ → Bool
  is_open p = opens (network p)

  abbrev pub is_closed : ℕ → Bool
  is_closed p = closes (network p)

  abbrev pub is_filtered : ℕ → Bool
  is_filtered p = is_silent (network p)

  -- The open ports of a list, as they are reported.
  unfoldable pub results : List ℕ → List PortResult
  unfolding probe_port
  results [] = []
  results (p ∷ ps) = found_list (probe_port p (network p)).1 ++ results ps

  -- The progress that a list of ports makes, one after the other.
  unfoldable pub outcome : List ℕ → Progress
  unfolding results tally
  outcome ps = record {
    done = length ps;
    opened = results ps;
    closed = tally is_closed ps;
    filtered = tally is_filtered ps;
  }

  results-append : (xs ys : List ℕ) → results (xs ++ ys) ≡ results xs ++ results ys
  unfolding results
  results-append [] ys = refl
  results-append (x ∷ xs) ys =
      rw (results-append xs ys)
        (sym (append_assoc (found_list (probe_port x (network x)).1) (results xs) (results ys)))

  pub report-outcome :
      (xs : List ℕ) (p : ℕ)
      → report (probe_port p (network p)) (outcome xs) ≡ outcome (xs ++ (p ∷ []))
  unfolding report outcome
  report-outcome xs p =
      rw
        (
          length-append xs (p ∷ []),
          results-append xs (p ∷ []),
          tally-append is_closed xs (p ∷ []),
          tally-append is_filtered xs (p ∷ []),
        )
        (go (network p) refl)
    where
      go :
          (c : Connect)
          → network p ≡ c
          → report (probe_port p c) (outcome xs) ≡ record {
            done = length xs + 1;
            opened = results xs ++ results (p ∷ []);
            closed = tally is_closed xs + tally is_closed (p ∷ []);
            filtered = tally is_filtered xs + tally is_filtered (p ∷ []);
          }
      go (connected g) e =
          rw
            (
              tally-no is_closed p (ap closes e),
              tally-no is_filtered p (ap is_silent e),
              add_zero (tally is_closed xs),
              add_zero (tally is_filtered xs),
              results,
              e,
            )
            refl
      go refused e =
          rw
            (
              tally-yes is_closed p (ap closes e),
              tally-no is_filtered p (ap is_silent e),
              add_zero (tally is_filtered xs),
              results,
              e,
              append-nil (results xs),
            )
            refl
      go failed e =
          rw
            (
              tally-no is_closed p (ap closes e),
              tally-yes is_filtered p (ap is_silent e),
              add_zero (tally is_closed xs),
              results,
              e,
              append-nil (results xs),
            )
            refl
