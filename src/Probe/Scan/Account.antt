-- ===== src/Probe/Scan/Account.antt =====
-- What the turns of a scan in src/probe.rs keep: every port that the cursor has passed is either
-- reported or in flight, once.
use tunnel_rs.Base.{
  ℕ, zero, suc, ◌+◌, ◌≤◌, min, ◌≡◌, ◌∙◌, refl, ap, ◌⊎◌, inl, inr, Bool, Option, none, some, List,
  [], ◌∷◌, ◌++◌, length, get_elem?, set, take, replicate, nat_eq, arith, length-set,
}
use mathlib.Core.Option.{some-injective}
use tunnel_rs.Probe.Probing.{Connect, probe_port}
use tunnel_rs.Probe.Scan.{
  Worker, idle, probing, stopped, Scan, report, take_port, turn, run, start, scan_concurrency,
}
use tunnel_rs.Probe.Scan.Tally.{tally, tally-append, tally-take, take-none}
use tunnel_rs.Probe.Scan.Answers.{outcome, report-outcome, results}

abbrev pub flight : List Worker → List ℕ
flight [] = []
flight (probing p ∷ ws) = p ∷ flight ws
flight (w ∷ ws) = flight ws

flight-cons :
    (f : ℕ → Bool) (w : Worker) (ws : List Worker)
    → tally f (flight (w ∷ ws)) ≡ tally f (flight (w ∷ [])) + tally f (flight ws)
unfolding tally
flight-cons f idle ws = omega arith
flight-cons f (probing p) ws = omega arith
flight-cons f stopped ws = omega arith

flight-set :
    (f : ℕ → Bool) (ws : List Worker) (i : ℕ) (w v : Worker)
    → get_elem? ws i ≡ some w
    → tally f (flight (set ws i v)) + tally f (flight (w ∷ []))
      ≡ tally f (flight ws) + tally f (flight (v ∷ []))
flight-set f [] i w v h = cc
flight-set f (x ∷ ws) zero w v h =
    let same : x ≡ w = some-injective _ _ h in
    rw (← same) (omega (arith, flight-cons f x ws, flight-cons f v ws))
flight-set f (x ∷ ws) (suc i) w v h =
    omega (arith, flight-cons f x ws, flight-cons f x (set ws i v), flight-set f ws i w v h)

-- A worker after a write is the one written or one that was there.
pub get_elem?-set :
    (ws : List Worker) (i j : ℕ) (v w : Worker)
    → get_elem? (set ws i v) j ≡ some w
    → (v ≡ w) ⊎ (get_elem? ws j ≡ some w)
get_elem?-set [] i j v w h = inr h
get_elem?-set (x ∷ ws) zero zero v w h = inl (some-injective _ _ h)
get_elem?-set (x ∷ ws) zero (suc j) v w h = inr h
get_elem?-set (x ∷ ws) (suc i) zero v w h = inr h
get_elem?-set (x ∷ ws) (suc i) (suc j) v w h = get_elem?-set ws i j v w h

module _ (ports : List ℕ) (network : ℕ → Connect) where
  -- What holds of a scan after any turns: some ports have been reported, one after the other;
  -- those and the ports in flight are, counted by any test, the ports that the cursor has passed;
  -- and a worker stops behind the last port alone.
  pub record IsAccounted (s : Scan) : Type 0 where
    pub reported : List ℕ
    pub told : s.progress ≡ outcome network reported
    pub balance :
        (f : ℕ → Bool)
        → tally f reported + tally f (flight s.workers) ≡ tally f (take s.cursor ports)
    pub ended : (i : ℕ) → get_elem? s.workers i ≡ some stopped → length ports ≤ s.cursor
    pub crew : length s.workers ≡ min scan_concurrency (length ports)

  flight-idle : (f : ℕ → Bool) (n : ℕ) → tally f (flight (replicate n idle)) ≡ 0
  unfolding tally
  flight-idle f zero = refl
  flight-idle f (suc n) = flight-idle f n

  length-crew : (n : ℕ) → length (replicate n idle) ≡ n
  length-crew zero = refl
  length-crew (suc n) = ap suc (length-crew n)

  idle-ne : (n i : ℕ) → get_elem? (replicate n idle) i ≡ some stopped → 1 ≤ 0
  idle-ne zero i h = cc
  idle-ne (suc n) zero h = cc
  idle-ne (suc n) (suc i) h = idle-ne n i h

  pub start-IsAccounted : IsAccounted (start ports network)
  unfolding start outcome results tally
  start-IsAccounted = record {
    reported = [];
    told = refl;
    balance = λ f. omega (arith, flight-idle f (min scan_concurrency (length ports)));
    ended = λ i h. absurd (omega (arith, idle-ne (min scan_concurrency (length ports)) i h));
    crew = length-crew (min scan_concurrency (length ports));
  }

  take_port-IsAccounted :
      (s : Scan) (i : ℕ)
      → IsAccounted s
      → get_elem? s.workers i ≡ some idle
      → IsAccounted (take_port ports network s i (get_elem? ports s.cursor))
  unfolding tally
  take_port-IsAccounted s i a here = go (get_elem? ports s.cursor) refl
    where
      next : s.cursor + 1 ≡ suc s.cursor
      next = omega arith

      go :
          (o : Option ℕ)
          → get_elem? ports s.cursor ≡ o
          → IsAccounted (take_port ports network s i o)
      go none e =
          let (whole, whole', past) = take-none ports s.cursor e in
          record {
            reported = a.reported;
            told = a.told;
            balance = λ f.
                rw (next, whole', ← whole)
                  (let moved = flight-set f s.workers i idle stopped here in
                    let same = a.balance f in omega arith);
            ended = λ j h. omega arith;
            crew = length-set s.workers i stopped ∙ a.crew;
          }
      go (some p) e = record {
        reported = a.reported;
        told = a.told;
        balance = λ f. rw next (
            let moved = flight-set f s.workers i idle (probing p) here in
            let same = a.balance f in let more = tally-take f ports s.cursor p e in omega arith);
        ended = λ j h. elim (get_elem?-set s.workers i j (probing p) stopped h) [
          | inl bad ↦ cc
          | inr old ↦ omega (arith, a.ended j old)
        ];
        crew = length-set s.workers i (probing p) ∙ a.crew;
      }

  report-IsAccounted :
      (s : Scan) (i p : ℕ)
      → IsAccounted s
      → get_elem? s.workers i ≡ some (probing p)
      → IsAccounted (record s {
        progress = report (probe_port p (network p)) s.progress;
        workers = set s.workers i idle;
      })
  unfolding tally
  report-IsAccounted s i p a here = record {
    reported = a.reported ++ (p ∷ []);
    told = ap (report (probe_port p (network p))) a.told ∙ report-outcome network a.reported p;
    balance = λ f.
        let moved = flight-set f s.workers i (probing p) idle here in
        let same = a.balance f in omega (arith, tally-append f a.reported (p ∷ []));
    ended = λ j h. elim (get_elem?-set s.workers i j idle stopped h) [
      | inl bad ↦ cc
      | inr old ↦ a.ended j old
    ];
    crew = length-set s.workers i idle ∙ a.crew;
  }

  turn-IsAccounted : (s : Scan) (i : ℕ) → IsAccounted s → IsAccounted (turn ports network s i)
  unfolding turn
  turn-IsAccounted s i a = go (get_elem? s.workers i) refl
    where
      go :
          (o : Option Worker)
          → get_elem? s.workers i ≡ o
          → IsAccounted (elim o [
            | none ↦ s
            | some idle ↦ take_port ports network s i (get_elem? ports s.cursor)
            | some (probing p) ↦ record s {
              progress = report (probe_port p (network p)) s.progress;
              workers = set s.workers i idle;
            }
            | some stopped ↦ s
          ])
      go none e = a
      go (some idle) e = take_port-IsAccounted s i a e
      go (some (probing p)) e = report-IsAccounted s i p a e
      go (some stopped) e = a

  pub run-IsAccounted :
      (s : Scan) (schedule : List ℕ) → IsAccounted s → IsAccounted (run ports network s schedule)
  unfolding run
  run-IsAccounted s [] a = a
  run-IsAccounted s (i ∷ schedule) a =
      run-IsAccounted (turn ports network s i) schedule (turn-IsAccounted s i a)
