-- ===== src/Portmap/Lease/Loop.antt =====
-- What `lease_loop` of src/portmap.rs tells the driver, over any run of renewals.
use tunnel_rs.Base.{
  ℕ, suc, ◌+◌, ◌*◌, ◌^◌, ◌<◌, ◌≤◌, ◌≡◌, refl, ◌⊎◌, inl, inr, ◌∙◌, ap, none, some, List, [], ◌∷◌,
  length, ltb, nat_eq, if◌then◌else◌, arith,
}
use tunnel_rs.Portmap.Lease.Renewal.{renew-Renewed}
use tunnel_rs.Portmap.Lease.{
  Answers, renew, Event, mapped, pending, lost, Lease, start, settle, pass, run, quiet_failures,
  retry, renew_after, second,
}
use tunnel_rs.Portmap.Message.{Mapping, Error, Result, ok, err}

-- Between two passes: a port is announced only while it is the one held and nothing has
-- failed since.
pub record IsSettled (l : Lease) : Type 0 where
  pub announced_held : (p : ℕ) → l.announced ≡ some p → (l.held.current ≡ some p) × (l.failures ≡ 0)
  pub small : l.failures < 2 ^ 32

pub start-IsSettled : IsSettled start
unfolding start
start-IsSettled = record { announced_held = λ p h. cc; small = omega arith }

-- The kind of an event, without its values.
pub data Standing : Type 0 where
  is_mapped is_pending is_lost : Standing

abbrev pub standing : Event → Standing
standing (mapped p) = is_mapped
standing (pending e) = is_pending
standing (lost e) = is_lost

Result-cases {ℓ} :
    {A : Type ℓ} (r : Result A) → ((a : A) × (r ≡ ok a)) ⊎ ((e : Error) × (r ≡ err e))
Result-cases (ok a) = inl (a, refl)
Result-cases (err e) = inr (e, refl)

-- A pass keeps the lease settled.
pub pass-IsSettled : (l : Lease) (a : Answers) → IsSettled l → IsSettled (pass l a).lease
unfolding pass settle
pass-IsSettled l a s = elim (Result-cases (renew a l.held).0) [
  | inl (m, e) ↦
      let r = renew-Renewed a l.held m e in
      rw (e, settle)
        (record { announced_held = λ p h. (r.port_kept ∙ h, refl); small = omega arith })
  | inr (x, e) ↦ rw (e, settle) (record { announced_held = λ p h. cc; small = omega arith })
]

-- A pass that reports a port holds that port, has announced it and has no failure on record;
-- a pass that reports none counts one failure more and has nothing announced.
pub pass_event :
    (l : Lease) (a : Answers)
    → l.failures + 1 < 2 ^ 32
    → ((m : Mapping) × ((renew a l.held).0 ≡ ok m)
        × ((pass l a).event ≡ mapped m.external)
        × ((pass l a).lease.held.current ≡ some m.external)
        × ((pass l a).lease.announced ≡ some m.external)
        × ((pass l a).lease.failures ≡ 0)
        × ((pass l a).wait ≡ renew_after (m.lifetime * second)))
      ⊎ ((e : Error) × ((renew a l.held).0 ≡ err e)
          × ((pass l a).event ≡ (if ltb quiet_failures (l.failures + 1) then lost e else pending e))
          × ((pass l a).lease.announced ≡ none)
          × ((pass l a).lease.failures ≡ l.failures + 1)
          × ((pass l a).wait ≡ retry))
unfolding pass settle
pass_event l a room = elim (Result-cases (renew a l.held).0) [
  | inl (m, e) ↦
      let r = renew-Renewed a l.held m e in
      inl (
        m,
        e,
        rw (e, settle),
        rw (e, settle) r.port_kept,
        rw (e, settle),
        rw (e, settle),
        rw (e, settle),
      )
  | inr (x, e) ↦ inr (
    x,
    e,
    rw (e, settle) (ground arith),
    rw (e, settle),
    rw (e, settle) (omega arith),
    rw (e, settle),
  )
]

-- All the renewals of a run fail.
abbrev pub AllFail : Lease → List Answers → Type 0
AllFail l [] = Unit
AllFail l (a ∷ later) =
    ((e : Error) × ((renew a l.held).0 ≡ err e)) × AllFail (pass l a).lease later

abbrev pub AllStanding : Standing → List Event → Type 0
AllStanding s [] = Unit
AllStanding s (e ∷ es) = (standing e ≡ s) × AllStanding s es

-- Once two renewals in a row have failed, each further failure in a row is reported as a loss.
pub run_lost :
    (l : Lease) (later : List Answers)
    → quiet_failures ≤ l.failures
    → l.failures + length later < 2 ^ 32
    → AllFail l later
    → AllStanding is_lost (run l later).0
unfolding run
run_lost l [] two room fail = tt
run_lost l (a ∷ later) two room ((e, failed), fails) = elim (pass_event l a (omega arith)) [
  | inl (m, won, _, _, _, _, _) ↦ absurd (ground arith)
  | inr (x, same, event, gone, count, wait) ↦
      (ground arith, run_lost (pass l a).lease later (omega arith) (omega arith) fails)
]

-- No renewal is made twice: a run reports one event for each renewal, in their order.
pub length-run : (l : Lease) (later : List Answers) → length (run l later).0 ≡ length later
unfolding run
length-run l [] = refl
length-run l (a ∷ later) = ap suc (length-run (pass l a).lease later)

-- A run that ends settled is settled throughout.
pub run-IsSettled : (l : Lease) (later : List Answers) → IsSettled l → IsSettled (run l later).1
unfolding run
run-IsSettled l [] s = s
run-IsSettled l (a ∷ later) s = run-IsSettled (pass l a).lease later (pass-IsSettled l a s)
