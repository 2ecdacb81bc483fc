-- ===== src/Probe/Scan.antt =====
-- The concurrent scan of src/probe.rs: `scan`, with its workers over one cursor and one record of
-- progress. A turn of a worker runs up to its next access to what is shared; a schedule, the list
-- of the workers in the order of their turns, stands for the interleaving.
pub mod Account
pub mod Answers
pub mod Outcome
pub mod Tally
pub mod Ends
use tunnel_rs.Base.{
  ℕ, zero, suc, ◌+◌, ◌-◌, ◌≤◌, ◌<◌, min, Bool, true, false, Option, none, some, List, [], ◌∷◌, ◌++◌,
  length, get_elem?, set, replicate, ltb, leb, ◌==◌, if◌then◌else◌,
}
use tunnel_rs.Probe.Ports.{max_scan_ports}
use tunnel_rs.Probe.Probing.{
  PortState, open_port, closed, filtered, PortResult, Connect, probe_port,
}
use tunnel_rs.Probe.Text.{
  is_empty, Error, too_many_ports, no_ports, Result, ok, err, refuse, ◌>>=◌, ◌>>◌,
}

abbrev pub scan_concurrency : ℕ
scan_concurrency = 16

-- `ScanOutcome` without the target and the time; the total is the length of the list.
pub record Progress : Type 0 where
  pub done : ℕ
  pub opened : List PortResult
  pub closed : ℕ
  pub filtered : ℕ

pub data Worker : Type 0 where
  idle : Worker
  probing : ℕ → Worker
  stopped : Worker

pub record Scan : Type 0 where
  pub cursor : ℕ
  pub progress : Progress
  pub workers : List Worker

-- `st.open.extend(found)`
abbrev pub found_list : Option PortResult → List PortResult
found_list none = []
found_list (some r) = r ∷ []

abbrev pub count_state : PortState → Option PortResult → Progress → Progress
count_state open_port found p = record p { opened = p.opened ++ found_list found }
count_state closed found p = record p { closed = p.closed + 1 }
count_state filtered found p = record p { filtered = p.filtered + 1 }

-- What a worker does with the answer, under the lock of the progress.
unfoldable pub report : PortState × Option PortResult → Progress → Progress
report answer p =
    let counted = count_state answer.0 answer.1 p in record counted { done = counted.done + 1 }

-- `sort_by_key(|p| p.port)`
unfoldable pub insert_result : PortResult → List PortResult → List PortResult
insert_result r [] = r ∷ []
insert_result r (x ∷ xs) =
    let rest = insert_result r xs in if leb r.port x.port then r ∷ x ∷ xs else x ∷ rest

unfoldable pub sort_results : List PortResult → List PortResult
unfolding insert_result
sort_results [] = []
sort_results (x ∷ xs) = insert_result x (sort_results xs)

module _ (ports : List ℕ) (network : ℕ → Connect) where
  -- The cursor's turn: the next port, or none left.
  abbrev pub take_port : Scan → ℕ → Option ℕ → Scan
  take_port s i none = record s { cursor = s.cursor + 1; workers = set s.workers i stopped }
  take_port s i (some p) = record s { cursor = s.cursor + 1; workers = set s.workers i (probing p) }

  -- A turn of the worker `i`.
  unfoldable pub turn : Scan → ℕ → Scan
  unfolding report
  turn s i = elim (get_elem? s.workers i) [
    | none ↦ s
    | some idle ↦ take_port s i (get_elem? ports s.cursor)
    | some (probing p) ↦ record s {
      progress = report (probe_port p (network p)) s.progress;
      workers = set s.workers i idle;
    }
    | some stopped ↦ s
  ]

  unfoldable pub run : Scan → List ℕ → Scan
  unfolding turn
  run s [] = s
  run s (i ∷ schedule) = run (turn s i) schedule

  abbrev pub nothing_yet : Progress
  nothing_yet = record { done = 0; opened = []; closed = 0; filtered = 0 }

  unfoldable pub start : Scan
  start = record {
    cursor = 0;
    progress = nothing_yet;
    workers = replicate (min scan_concurrency (length ports)) idle;
  }

  -- The end of `scan`, behind the last worker.
  unfoldable pub finish : Scan → Progress
  unfolding sort_results
  finish s = record (s.progress) { opened = sort_results s.progress.opened }

  -- `scan` over a schedule: its outcome is what it returns when the workers have stopped.
  unfoldable pub scan : List ℕ → Result Progress
  unfolding run start finish
  scan schedule = do
    refuse (is_empty ports) no_ports
    refuse (ltb max_scan_ports (length ports)) too_many_ports
    ok (finish (run start schedule))
