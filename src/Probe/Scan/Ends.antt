-- ===== src/Probe/Scan/Ends.antt =====
-- Why the concurrent scan of src/probe.rs ends: each turn of a worker that has not stopped uses
-- something up.
use tunnel_rs.Base.{
  ℕ, zero, suc, ◌+◌, ◌-◌, ◌*◌, ◌≤◌, ◌<◌, min, ◌≡◌, refl, ◌⊎◌, inl, inr, Bool, true, false, ◌&&◌,
  Option, none, some, List, [], ◌∷◌, ◌++◌, length, get_elem?, set, replicate, ◌==◌, nat_eq, arith,
  All, Bool-cases, get_elem?-lt-length,
}
use mathlib.Core.Option.{some-injective}
use tunnel_rs.Probe.Ports.Laws.{IsPortList}
use tunnel_rs.Probe.Ports.Sorting.{has}
use tunnel_rs.Probe.Probing.{Connect, probe_port}
use tunnel_rs.Probe.Scan.{
  Worker, idle, probing, stopped, Scan, report, take_port, turn, run, start, scan, scan_concurrency,
}
use tunnel_rs.Probe.Scan.Account.{IsAccounted, start-IsAccounted, run-IsAccounted}
use tunnel_rs.Probe.Scan.Answers.{outcome}
use tunnel_rs.Probe.Scan.Outcome.{all_stopped, scan-outcome}
use tunnel_rs.Probe.Text.{ok}

abbrev weight : Worker → ℕ
weight idle = 1
weight (probing p) = 2
weight stopped = 0

abbrev load : List Worker → ℕ
load [] = 0
load (w ∷ ws) = weight w + load ws

load-set :
    (ws : List Worker) (i : ℕ) (w v : Worker)
    → get_elem? ws i ≡ some w
    → load (set ws i v) + weight w ≡ load ws + weight v
load-set [] i w v h = cc
load-set (x ∷ ws) zero w v h = let same : x ≡ w = some-injective _ _ h in rw (← same) (omega arith)
load-set (x ∷ ws) (suc i) w v h = omega (arith, load-set ws i w v h)

load-zero : (ws : List Worker) → load ws ≡ 0 → all_stopped ws ≡ true
load-zero [] h = refl
load-zero (stopped ∷ ws) h = load-zero ws (omega arith)
load-zero (idle ∷ ws) h = absurd (omega arith)
load-zero (probing p ∷ ws) h = absurd (omega arith)

load-replicate : (n : ℕ) → load (replicate n idle) ≡ n
load-replicate zero = refl
load-replicate (suc n) = omega (arith, load-replicate n)

-- Whether a worker is there and has not stopped.
abbrev works : Option Worker → Bool
works none = false
works (some idle) = true
works (some (probing p)) = true
works (some stopped) = false

stopped-rest :
    (ws : List Worker)
    → ((i : ℕ) → i < length ws → works (get_elem? ws i) ≡ false)
    → all_stopped ws ≡ true
stopped-rest [] h = refl
stopped-rest (stopped ∷ ws) h = stopped-rest ws (λ i lt. h (suc i) (omega arith))
stopped-rest (idle ∷ ws) h = cc (h 0 (omega arith))
stopped-rest (probing p ∷ ws) h = cc (h 0 (omega arith))

all_stopped-works :
    (ws : List Worker) (i : ℕ) → all_stopped ws ≡ true → works (get_elem? ws i) ≡ false
all_stopped-works [] i h = refl
all_stopped-works (stopped ∷ ws) zero h = refl
all_stopped-works (stopped ∷ ws) (suc i) h = all_stopped-works ws i h
all_stopped-works (idle ∷ ws) i h = cc
all_stopped-works (probing p ∷ ws) i h = cc

-- Whether a list names every number below the bound.
abbrev pub names_all : ℕ → List ℕ → Bool
names_all zero r = true
names_all (suc n) r = has r n && names_all n r

names_all_lem : (n : ℕ) (r : List ℕ) (i : ℕ) → names_all n r ≡ true → i < n → has r i ≡ true
names_all_lem zero r i h lt = absurd (omega arith)
names_all_lem (suc n) r i h lt = elim (Bool-cases (i == n)) [
  | inl same ↦ let e : i ≡ n = ground arith in rw e (ground arith)
  | inr other ↦ names_all_lem n r i (ground arith) (ground arith)
]

abbrev pub flatten : List (List ℕ) → List ℕ
flatten [] = []
flatten (r ∷ rounds) = r ++ flatten rounds

either :
    (schedule : List ℕ) (ws : List Worker) (i j : ℕ)
    → works (get_elem? ws i) ≡ false
    → ((k : ℕ) → has schedule k ≡ true → works (get_elem? ws k) ≡ false)
    → has (i ∷ schedule) j ≡ true
    → works (get_elem? ws j) ≡ false
either schedule ws i j rest quiet h = elim (Bool-cases (i == j)) [
  | inl same ↦ let e : i ≡ j = ground arith in rw (← e) rest
  | inr other ↦ quiet j (rw other at h)
]

module _ (ports : List ℕ) (network : ℕ → Connect) where
  -- What is left to do.
  abbrev left : Scan → ℕ
  left s = 2 * (length ports - s.cursor) + load s.workers

  turn-left :
      (s : Scan) (i : ℕ)
      → works (get_elem? s.workers i) ≡ true
      → left (turn ports network s i) < left s
  unfolding turn
  turn-left s i h = go (get_elem? s.workers i) refl h
    where
      taken :
          (o : Option ℕ)
          → get_elem? ports s.cursor ≡ o
          → get_elem? s.workers i ≡ some idle
          → left (take_port ports network s i o) < left s
      taken none e here = omega (arith, load-set s.workers i idle stopped here)
      taken (some p) e here =
          omega (
            arith,
            load-set s.workers i idle (probing p) here,
            get_elem?-lt-length ports s.cursor e,
          )

      go :
          (o : Option Worker)
          → get_elem? s.workers i ≡ o
          → works o ≡ true
          → left (elim o [
            | none ↦ s
            | some idle ↦ take_port ports network s i (get_elem? ports s.cursor)
            | some (probing p) ↦ record s {
              progress = report (probe_port p (network p)) s.progress;
              workers = set s.workers i idle;
            }
            | some stopped ↦ s
          ])
            < left s
      go none e h = cc
      go (some idle) e h = taken (get_elem? ports s.cursor) refl e
      go (some (probing p)) e h = omega (arith, load-set s.workers i (probing p) idle e)
      go (some stopped) e h = cc

  turn-rest :
      (s : Scan) (i : ℕ) → works (get_elem? s.workers i) ≡ false → turn ports network s i ≡ s
  unfolding turn
  turn-rest s i h = go (get_elem? s.workers i) h
    where
      go :
          (o : Option Worker)
          → works o ≡ false
          → elim o [
            | none ↦ s
            | some idle ↦ take_port ports network s i (get_elem? ports s.cursor)
            | some (probing p) ↦ record s {
              progress = report (probe_port p (network p)) s.progress;
              workers = set s.workers i idle;
            }
            | some stopped ↦ s
          ]
            ≡ s
      go none h = refl
      go (some idle) h = cc
      go (some (probing p)) h = cc
      go (some stopped) h = refl

  run-le : (s : Scan) (schedule : List ℕ) → left (run ports network s schedule) ≤ left s
  unfolding run
  run-le s [] = omega arith
  run-le s (i ∷ schedule) = elim (Bool-cases (works (get_elem? s.workers i))) [
    | inl busy ↦ omega (arith, turn-left s i busy, run-le (turn ports network s i) schedule)
    | inr rest ↦ rw (run, turn-rest s i rest) (run-le s schedule)
  ]

  -- Turns that do not use anything up are those of workers at rest.
  run-left :
      (s : Scan) (schedule : List ℕ)
      → (left (run ports network s schedule) < left s)
        ⊎ ((run ports network s schedule ≡ s)
            × ((i : ℕ) → has schedule i ≡ true → works (get_elem? s.workers i) ≡ false))
  unfolding run
  run-left s [] = inr (refl, λ i h. cc)
  run-left s (i ∷ schedule) = elim (Bool-cases (works (get_elem? s.workers i))) [
    | inl busy ↦ inl (omega (arith, turn-left s i busy, run-le (turn ports network s i) schedule))
    | inr rest ↦ elim (run-left s schedule) [
      | inl less ↦ inl (rw (run, turn-rest s i rest) less)
      | inr (same, quiet) ↦
          inr (rw (run, turn-rest s i rest) same, λ j h. either schedule s.workers i j rest quiet h)
    ]
  ]

  run-append :
      (s : Scan) (xs ys : List ℕ)
      → run ports network s (xs ++ ys) ≡ run ports network (run ports network s xs) ys
  unfolding run
  run-append s [] ys = refl
  run-append s (i ∷ xs) ys = run-append (turn ports network s i) xs ys

  run-stopped :
      (s : Scan) (schedule : List ℕ)
      → all_stopped s.workers ≡ true
      → run ports network s schedule ≡ s
  unfolding run
  run-stopped s [] h = refl
  run-stopped s (i ∷ schedule) h =
      rw (run, turn-rest s i (all_stopped-works s.workers i h)) (run-stopped s schedule h)

  rounds-all_stopped :
      (rounds : List (List ℕ)) (s : Scan)
      → IsAccounted ports network s
      → All (λ r. names_all scan_concurrency r ≡ true) rounds
      → left s ≤ length rounds
      → all_stopped (run ports network s (flatten rounds)).workers ≡ true
  rounds-all_stopped [] s a fair enough = unfold run in load-zero s.workers (omega arith)
  rounds-all_stopped (r ∷ rounds) s a fair enough =
      rw (run-append s r (flatten rounds)) (elim (run-left s r) [
        | inl less ↦
            rounds-all_stopped rounds (run ports network s r) (run-IsAccounted ports network s r a)
              fair.1 (omega arith)
        | inr (same, quiet) ↦
            let done =
              stopped-rest s.workers λ i lt.
                quiet i (names_all_lem scan_concurrency r i fair.0 (omega (arith, a.crew))) in
            rw (same, run-stopped s (flatten rounds) done) done
      ])

  start-left : left (start ports network) ≤ 2 * length ports + scan_concurrency
  unfolding start
  start-left = omega (arith, load-replicate (min scan_concurrency (length ports)))

  -- With enough rounds in which every worker has a turn, the scan ends with the outcome of its
  -- ports one after the other.
  pub scan-rounds :
      (rounds : List (List ℕ))
      → IsPortList ports
      → All (λ r. names_all scan_concurrency r ≡ true) rounds
      → 2 * length ports + scan_concurrency ≤ length rounds
      → scan ports network (flatten rounds) ≡ ok (outcome network ports)
  scan-rounds rounds fit fair enough = scan-outcome ports network (flatten rounds) fit (
      rounds-all_stopped rounds (start ports network) (start-IsAccounted ports network) fair
        (omega (arith, start-left)))
