-- ===== src/Probe/Scan/Outcome.antt =====
-- What the concurrent scan of src/probe.rs returns, whatever the interleaving of its workers.
use tunnel_rs.Base.{
  ℕ, ◌≤◌, ◌<◌, ◌≡◌, ◌∙◌, refl, sym, ap, ◌⊎◌, inl, inr, Bool, true, false, ◌&&◌, some, List, [], ◌∷◌,
  ◌++◌, length, get_elem?, ltb, leb, nat_eq, arith, Bool-cases,
}
use tunnel_rs.Probe.Ports.{insert, sort}
use tunnel_rs.Probe.Ports.Sorting.{Sorted, AtLeast, Ascending, sort-Sorted}
use tunnel_rs.Probe.Probing.{
  PortResult, Connect, connected, refused, failed, probe_port, greeting_banner, service_name,
}
use tunnel_rs.Probe.Scan.{
  Worker, idle, probing, stopped, Scan, found_list, insert_result, sort_results, run, start, finish,
}
use tunnel_rs.Probe.Scan.Tally.{tally, tally-sort, take-all, Sorted-unique, Ascending-Sorted}
use tunnel_rs.Probe.Ports.{max_scan_ports}
use tunnel_rs.Probe.Ports.Laws.{IsPortList}
use tunnel_rs.Probe.Text.{is_empty, ok}
use tunnel_rs.Probe.Scan.{scan}
use tunnel_rs.Probe.Scan.Account.{IsAccounted, start-IsAccounted, run-IsAccounted, flight}
use tunnel_rs.Probe.Scan.Answers.{results, outcome, is_closed, is_filtered}

module _ (network : ℕ → Connect) where
  -- A port is reported by its number, or not at all.
  results-cons :
      (p : ℕ)
      → ((qs : List ℕ) → results network (p ∷ qs) ≡ results network qs)
        ⊎ ((r : PortResult) × (r.port ≡ p)
            × ((qs : List ℕ) → results network (p ∷ qs) ≡ r ∷ results network qs))
  unfolding results probe_port
  results-cons p = go (network p) refl
    where
      go :
          (c : Connect)
          → network p ≡ c
          → ((qs : List ℕ)
              → found_list (probe_port p (network p)).1 ++ results network qs ≡ results network qs)
            ⊎ ((r : PortResult) × (r.port ≡ p)
                × ((qs : List ℕ)
                    → found_list (probe_port p (network p)).1 ++ results network qs
                      ≡ r ∷ results network qs))
      go (connected g) e = inr (
        record { port = p; service = service_name p; banner = greeting_banner g },
        refl,
        λ qs. rw e refl,
      )
      go refused e = inl (λ qs. rw e refl)
      go failed e = inl (λ qs. rw e refl)

  insert_result-front :
      (r : PortResult) (xs : List ℕ)
      → AtLeast r.port xs
      → Sorted xs
      → insert_result r (results network xs) ≡ r ∷ results network xs
  unfolding insert_result
  insert_result-front r [] a s = unfold results in refl
  insert_result-front r (x ∷ xs) a s = elim (results-cons x) [
    | inl silent ↦ rw (silent xs) (insert_result-front r xs (below xs a s.0) s.1)
    | inr (q, at, told) ↦
        let low : leb r.port q.port ≡ true = ground arith in rw (told xs, low) refl
  ]
    where
      below : (ys : List ℕ) → r.port ≤ x → AtLeast x ys → AtLeast r.port ys
      below [] le b = tt
      below (y ∷ ys) le b = omega arith

  insert_result-results :
      (r : PortResult) (p : ℕ) (xs : List ℕ)
      → r.port ≡ p
      → ((qs : List ℕ) → results network (p ∷ qs) ≡ r ∷ results network qs)
      → Sorted xs
      → insert_result r (results network xs) ≡ results network (insert p xs)
  unfolding insert insert_result
  insert_result-results r p [] at told s = insert_result-front r [] tt tt ∙ sym (told [])
  insert_result-results r p (x ∷ xs) at told s = elim (Bool-cases (leb p x)) [
    | inl low ↦ rw low (insert_result-front r (x ∷ xs) (ground arith) s ∙ sym (told (x ∷ xs)))
    | inr high ↦ rw high (elim (results-cons x) [
      | inl silent ↦ rw (silent xs, silent (insert p xs)) (insert_result-results r p xs at told s.1)
      | inr (q, at', told') ↦
          let later : leb r.port q.port ≡ false = ground arith in
          rw (told' xs, told' (insert p xs), insert_result, later)
            (ap (λ (z : List PortResult). q ∷ z) (insert_result-results r p xs at told s.1))
    ])
  ]

  results-under :
      (x : ℕ) (qs rs : List ℕ)
      → results network qs ≡ results network rs
      → results network (x ∷ qs) ≡ results network (x ∷ rs)
  unfolding results
  results-under x qs rs e =
      ap (λ (z : List PortResult). found_list (probe_port x (network x)).1 ++ z) e

  -- A port without a report makes no difference.
  insert-silent :
      (p : ℕ) (xs : List ℕ)
      → ((qs : List ℕ) → results network (p ∷ qs) ≡ results network qs)
      → results network (insert p xs) ≡ results network xs
  unfolding insert
  insert-silent p [] silent = silent []
  insert-silent p (x ∷ xs) silent = elim (Bool-cases (leb p x)) [
    | inl low ↦ rw low (silent (x ∷ xs))
    | inr high ↦ rw high (results-under x (insert p xs) xs (insert-silent p xs silent))
  ]

  sort_results-results :
      (xs : List ℕ) → sort_results (results network xs) ≡ results network (sort xs)
  unfolding sort_results sort
  sort_results-results [] = unfold results in refl
  sort_results-results (x ∷ xs) = elim (results-cons x) [
    | inl silent ↦ rw (silent xs) (sort_results-results xs ∙ sym (insert-silent x (sort xs) silent))
    | inr (r, at, told) ↦
        rw (told xs, sort_results, sort_results-results xs)
          (insert_result-results r x (sort xs) at told (sort-Sorted xs))
  ]

-- Whether every worker has stopped.
abbrev pub is_stopped : Worker → Bool
is_stopped stopped = true
is_stopped other = false

abbrev pub all_stopped : List Worker → Bool
all_stopped [] = true
all_stopped (w ∷ ws) = is_stopped w && all_stopped ws

stopped-flight : (ws : List Worker) → all_stopped ws ≡ true → flight ws ≡ []
stopped-flight [] h = refl
stopped-flight (stopped ∷ ws) h = stopped-flight ws h
stopped-flight (idle ∷ ws) h = cc
stopped-flight (probing p ∷ ws) h = cc

stopped-first :
    (ws : List Worker) → all_stopped ws ≡ true → 0 < length ws → get_elem? ws 0 ≡ some stopped
stopped-first [] h pos = absurd (omega arith)
stopped-first (stopped ∷ ws) h pos = refl
stopped-first (idle ∷ ws) h pos = cc
stopped-first (probing p ∷ ws) h pos = cc

length-tally : (xs : List ℕ) → length xs ≡ tally (λ z. true) xs
unfolding tally
length-tally [] = refl
length-tally (x ∷ xs) = omega (arith, length-tally xs)

module _ (ports : List ℕ) (network : ℕ → Connect) where
  finish-outcome :
      (s : Scan)
      → Ascending ports
      → 0 < length ports
      → IsAccounted ports network s
      → all_stopped s.workers ≡ true
      → finish ports network s ≡ outcome network ports
  unfolding finish outcome
  finish-outcome s up filled a ended =
      let nobody : (f : ℕ → Bool) → tally f (flight s.workers) ≡ 0 =
        λ f. ap (tally f) (stopped-flight s.workers ended) ∙ unfold tally in refl in
      let past = a.ended 0 (stopped-first s.workers ended (omega (arith, a.crew))) in
      let same : (f : ℕ → Bool) → tally f a.reported ≡ tally f ports =
        λ f. omega (arith, a.balance f, nobody f, ap (tally f) (take-all ports s.cursor past)) in
      let order : sort a.reported ≡ ports =
        Sorted-unique (sort a.reported) ports (sort-Sorted a.reported) (Ascending-Sorted ports up)
          (λ f. tally-sort f a.reported ∙ same f) in
      let size : length a.reported ≡ length ports =
        length-tally a.reported ∙ same (λ z. true) ∙ sym (length-tally ports) in
      rw
        (
          a.told,
          sort_results-results network a.reported,
          order,
          size,
          same (is_closed network),
          same (is_filtered network),
        )
        refl

  -- When the workers have stopped, the outcome is that of the ports one after the other.
  pub scan-outcome :
      (schedule : List ℕ)
      → IsPortList ports
      → all_stopped (run ports network (start ports network) schedule).workers ≡ true
      → scan ports network schedule ≡ ok (outcome network ports)
  unfolding scan
  scan-outcome schedule fit ended =
      let some_ports : is_empty ports ≡ false = filled ports fit.filled in
      let few : ltb max_scan_ports (length ports) ≡ false = ground (arith, fit.few) in
      let a =
        run-IsAccounted ports network (start ports network) schedule
          (start-IsAccounted ports network) in
      rw (some_ports, few)
        (ap ok (
          finish-outcome (run ports network (start ports network) schedule) fit.ascending fit.filled
            a ended))
    where
      filled : (xs : List ℕ) → 0 < length xs → is_empty xs ≡ false
      filled [] h = absurd (omega arith)
      filled (x ∷ xs) h = refl
