-- ===== src/Portmap/Lease/Waiting.antt =====
-- `sleep_interruptibly` of src/portmap.rs ends, after the time asked for or at a shutdown.
use tunnel_rs.Base.{
  ℕ, zero, suc, ◌+◌, ◌-◌, ◌*◌, ◌≤◌, min, ◌≡◌, inl, inr, Bool, some, List, [], ◌∷◌, ◌==◌, nat_eq,
  if◌then◌else◌, arith, Bool-cases,
}
use tunnel_rs.Portmap.Lease.{sleep}

abbrev pub sum : List ℕ → ℕ
sum [] = 0
sum (x ∷ xs) = x + sum xs

-- How many of the first looks at the flag find it unset, up to the first that finds it set.
abbrev pub first_set : ℕ → (ℕ → Bool) → ℕ
first_set zero shutdown = 0
first_set (suc looks) shutdown =
    let later = first_set looks (λ i. shutdown (suc i)) in if shutdown 0 then 0 else suc later

-- With a round for each half second asked for and one more, the sleep ends: it has slept half a
-- second for each look at the flag before the first that finds a shutdown, and no more than it
-- was asked to, so the whole time where no look finds one.
pub sleep-first_set :
    (rounds : ℕ) (shutdown : ℕ → Bool) (left : ℕ)
    → left ≤ rounds * 500_000_000
    → (slices : List ℕ) × (sleep (suc rounds) shutdown left ≡ some slices)
      × (sum slices ≡ min left (first_set rounds shutdown * 500_000_000))
unfolding sleep
sleep-first_set zero shutdown left h = ([], ground arith, omega arith)
sleep-first_set (suc rounds) shutdown left h = elim (Bool-cases (left == 0)) [
  | inl done ↦ ([], rw done, ground arith)
  | inr more ↦ elim (Bool-cases (shutdown 0)) [
    | inl stop ↦ ([], rw (more, stop), rw stop (omega arith))
    | inr on ↦
        let (slices, run, total) =
          sleep-first_set rounds (λ i. shutdown (suc i)) (left - min left 500_000_000)
            (omega arith) in
        (min left 500_000_000 ∷ slices, rw (more, on, run), rw on (omega arith))
  ]
]
