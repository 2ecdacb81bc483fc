-- ===== src/Portmap/Lease/Reports.antt =====
-- What `lease_loop` of src/portmap.rs tells the driver and how long it waits, against the results
-- of the renewals alone.
use tunnel_rs.Base.{
  ℕ, ◌+◌, ◌*◌, ◌/◌, ◌^◌, ◌<◌, ◌≤◌, ◌%◌, max, ◌≡◌, ◌∙◌, ap, refl, List, [], ◌∷◌, length, leb, nat_eq,
  if◌then◌else◌, arith,
}
use tunnel_rs.Portmap.Lease.{
  Answers, Held, renew, Event, mapped, pending, lost, Lease, settle, pass, run, renew_after,
}
use tunnel_rs.Portmap.Message.{Mapping, Result, ok, err}

-- The results of the renewals of a run, each from what the one before it left.
abbrev pub outcomes : Held → List Answers → List (Result Mapping)
outcomes held [] = []
outcomes held (a ∷ later) = (renew a held).0 ∷ outcomes (renew a held).1 later

-- The events that the results call for, after so many failures in a row: a grant opens its port,
-- the first two failures in a row are pending, the third and all after it a loss.
abbrev pub reports : ℕ → List (Result Mapping) → List Event
reports streak [] = []
reports streak (ok m ∷ later) = mapped m.external ∷ reports 0 later
reports streak (err e ∷ later) =
    (if leb 3 (streak + 1) then lost e else pending e) ∷ reports (streak + 1) later

-- The waits that the results call for, in nanoseconds: half the grant, which is in seconds, but
-- not under ten seconds; and ten seconds after a failure.
abbrev pub pauses : List (Result Mapping) → List ℕ
pauses [] = []
pauses (ok m ∷ later) = max (m.lifetime * 1_000_000_000 / 2) 10_000_000_000 ∷ pauses later
pauses (err e ∷ later) = 10_000_000_000 ∷ pauses later

-- The waits of the passes of a run.
abbrev pub waits : Lease → List Answers → List ℕ
waits l [] = []
waits l (a ∷ later) = (pass l a).wait ∷ waits (pass l a).lease later

settle-reports :
    (l : Lease) (r : Result Mapping × Held) (later : List (Result Mapping)) (events : List Event)
    → l.failures + 1 < 2 ^ 32
    → events ≡ reports (settle l r).lease.failures later
    → (settle l r).event ∷ events ≡ reports l.failures (r.0 ∷ later)
unfolding settle
settle-reports l (ok m, held) later events room e = rw e
settle-reports l (err x, held) later events room e =
    let count : (l.failures + 1) % 2 ^ 32 ≡ l.failures + 1 = omega arith in
    rw (e, count) (ground arith)

settle-pauses :
    (l : Lease) (r : Result Mapping × Held) (later : List (Result Mapping)) (rest : List ℕ)
    → rest ≡ pauses later
    → (settle l r).wait ∷ rest ≡ pauses (r.0 ∷ later)
unfolding settle renew_after
settle-pauses l (ok m, held) later rest e = rw e
settle-pauses l (err x, held) later rest e = rw e

settle-held : (l : Lease) (r : Result Mapping × Held) → (settle l r).lease.held ≡ r.1
unfolding settle
settle-held l (ok m, held) = refl
settle-held l (err x, held) = refl

settle-failures :
    (l : Lease) (r : Result Mapping × Held) → (settle l r).lease.failures ≤ l.failures + 1
unfolding settle
settle-failures l (ok m, held) = omega arith
settle-failures l (err x, held) = omega arith

-- Over any run of fewer than 2 ^ 32 passes, the events and the waits are those that the results
-- of its renewals call for: a grant opens its port and is followed by half its lifetime, or ten
-- seconds if that is more; a failure is followed by ten seconds, and is reported as pending if it
-- is the first or second in a row and as a loss if it is a later one.
pub run-reports :
    (l : Lease) (later : List Answers)
    → l.failures + length later < 2 ^ 32
    → ((run l later).0 ≡ reports l.failures (outcomes l.held later))
      × (waits l later ≡ pauses (outcomes l.held later))
unfolding run pass
run-reports l [] room = (refl, refl)
run-reports l (a ∷ later) room =
    let r = renew a l.held in
    let next = run-reports (settle l r).lease later (omega (arith, settle-failures l r)) in
    let same = ap (λ (z : Held). outcomes z later) (settle-held l r) in
    (
      settle-reports l r (outcomes r.1 later) (run (settle l r).lease later).0 (omega arith)
          (next.0 ∙ ap (reports (settle l r).lease.failures) same),
      settle-pauses l r (outcomes r.1 later) (waits (settle l r).lease later)
          (next.1 ∙ ap pauses same),
    )
