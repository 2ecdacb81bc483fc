-- ===== src/Conn/Ready.antt =====
-- `Ready` of src/conn.rs: the queue of flows with work pending, without repetitions. The lock
-- makes each operation one step.
use tunnel_rs.Base.{
  ℕ, ◌+◌, ◌≡◌, refl, inl, inr, Bool, true, false, ap, ◌∙◌, length, length-append, ◌||◌, List, [],
  ◌∷◌, ◌++◌, ◌==◌, if◌then◌else◌, arith, Bool-cases,
}
use tunnel_rs.Conn.Flow.{FlowId, flow_id_eq, flow_id_beq_iff}

pub record Ready : Type 0 where
  pub queue : List FlowId
  pub marked : List FlowId
  -- permits of `notify_one` that were given
  pub notified : ℕ

unfoldable pub has : FlowId → List FlowId → Bool
has id [] = false
has id (x ∷ xs) = x == id || has id xs

unfoldable pub new : Ready
new = record { queue = []; marked = []; notified = 0 }

-- `mark`: a flow that is queued already is left alone.
unfoldable pub mark : FlowId → Ready → Ready
mark id r =
    if has id r.marked
    then r
    else record { queue = r.queue ++ (id ∷ []); marked = id ∷ r.marked; notified = r.notified + 1 }

-- `take`: the drained queue, behind what the buffer held, and the empty state.
unfoldable pub take : List FlowId → Ready → List FlowId × Ready
take out r = (out ++ r.queue, record { queue = []; marked = []; notified = r.notified })

has-append : (id : FlowId) (xs ys : List FlowId) → has id (xs ++ ys) ≡ (has id xs || has id ys)
unfolding has
has-append id [] ys = refl
has-append id (x ∷ xs) ys = ground (arith, has-append id xs ys)

-- No flow stands twice.
abbrev pub Distinct : List FlowId → Type 0
Distinct [] = Unit {0}
Distinct (x ∷ xs) = (has x xs ≡ false) × Distinct xs

Distinct-append :
    (xs : List FlowId) (id : FlowId) → Distinct xs → has id xs ≡ false → Distinct (xs ++ (id ∷ []))
unfolding has
Distinct-append [] id d h = (refl, tt)
Distinct-append (x ∷ xs) id d h = (
  rw (has-append x xs (id ∷ [])) (ground (arith, flow_id_beq_iff x id, flow_id_beq_iff id x)),
  Distinct-append xs id d.1 (ground arith),
)

-- The set of marks is the set of queued flows, and the queue has no repetitions.
pub record IsValid (r : Ready) : Type 0 where
  pub agrees : (id : FlowId) → has id r.marked ≡ has id r.queue
  pub distinct : Distinct r.queue

pub new-IsValid : IsValid new
unfolding new
new-IsValid = record { agrees = λ id. refl; distinct = tt }

pub mark-IsValid : (id : FlowId) (r : Ready) → IsValid r → IsValid (mark id r)
unfolding mark has
mark-IsValid id r v = elim (Bool-cases (has id r.marked)) [
  | inl old ↦ rw old v
  | inr new ↦ rw new (record {
    agrees = λ j. rw (has-append j r.queue (id ∷ [])) (ground (arith, v.agrees j));
    distinct = Distinct-append r.queue id v.distinct (ground (arith, v.agrees id));
  })
]

-- A marked flow is in the queue, the others are where they were, and each flow that was not
-- queued gives one permit to the waiting loop.
pub mark_lem :
    (id j : FlowId) (r : Ready)
    → IsValid r
    → (has j (mark id r).queue ≡ (id == j || has j r.queue))
      × ((mark id r).notified ≡ (if has id r.queue then r.notified else r.notified + 1))
unfolding mark has
mark_lem id j r v = elim (Bool-cases (has id r.marked)) [
  | inl old ↦
      rw old (ground (arith, v.agrees id, flow_id_beq_iff id j), ground (arith, v.agrees id))
  | inr new ↦
      rw new (rw (has-append j r.queue (id ∷ [])) (ground arith), ground (arith, v.agrees id))
]

-- A step of those who share the queue: a mark, or a drain into an empty buffer.
pub data Step : Type 0 where
  marks : FlowId → Step
  drains : Step

-- The state after the steps, and what each drain handed over, in order.
abbrev pub run : Ready → List Step → List (List FlowId) × Ready
run r [] = ([], r)
run r (marks id ∷ steps) = run (mark id r) steps
run r (drains ∷ steps) = let rest = run (take [] r).1 steps in ((take [] r).0 ∷ rest.0, rest.1)

-- What the drains should hand over, seen from the marks alone: `since` are the flows marked
-- since the last drain, and each drain gets them all in the order of their first marks.
abbrev pub drained : List FlowId → List Step → List (List FlowId)
drained since [] = []
drained since (marks id ∷ steps) =
    drained (if has id since then since else since ++ (id ∷ [])) steps
drained since (drains ∷ steps) = since ∷ drained [] steps

abbrev pub AllDistinct : List (List FlowId) → Type 0
AllDistinct [] = Unit {0}
AllDistinct (ids ∷ more) = Distinct ids × AllDistinct more

-- How many flows these drains handed over.
abbrev pub total : List (List FlowId) → ℕ
total [] = 0
total (ids ∷ more) = length ids + total more

take-IsValid : (r : Ready) → IsValid (take [] r).1
unfolding take
take-IsValid r = record { agrees = λ id. refl; distinct = tt }

mark-queue :
    (id : FlowId) (r : Ready)
    → IsValid r
    → (mark id r).queue ≡ (if has id r.queue then r.queue else r.queue ++ (id ∷ []))
unfolding mark
mark-queue id r v = elim (Bool-cases (has id r.marked)) [
  | inl old ↦ let held : has id r.queue ≡ true = ground (arith, v.agrees id) in rw (old, held) refl
  | inr first ↦
      let free : has id r.queue ≡ false = ground (arith, v.agrees id) in rw (first, free) refl
]

run-drained_from :
    (r : Ready) (steps : List Step) → IsValid r → (run r steps).0 ≡ drained r.queue steps
unfolding take
run-drained_from r [] v = refl
run-drained_from r (marks id ∷ steps) v =
    run-drained_from (mark id r) steps (mark-IsValid id r v)
    ∙ ap (λ (z : List FlowId). drained z steps) (mark-queue id r v)
run-drained_from r (drains ∷ steps) v =
    ap (λ (z : List (List FlowId)). r.queue ∷ z)
      (run-drained_from (take [] r).1 steps (take-IsValid r))

run-AllDistinct : (r : Ready) (steps : List Step) → IsValid r → AllDistinct (run r steps).0
unfolding take
run-AllDistinct r [] v = tt
run-AllDistinct r (marks id ∷ steps) v = run-AllDistinct (mark id r) steps (mark-IsValid id r v)
run-AllDistinct r (drains ∷ steps) v =
    (v.distinct, run-AllDistinct (take [] r).1 steps (take-IsValid r))

mark-permits :
    (id : FlowId) (r : Ready)
    → (mark id r).notified + length r.queue ≡ r.notified + length (mark id r).queue
unfolding mark
mark-permits id r = elim (Bool-cases (has id r.marked)) [
  | inl old ↦ rw old refl
  | inr first ↦ rw first (omega (arith, length-append r.queue (id ∷ [])))
]

run-permits :
    (r : Ready) (steps : List Step)
    → let after = run r steps in
      after.1.notified + length r.queue ≡ r.notified + total after.0 + length after.1.queue
unfolding take
run-permits r [] = omega arith
run-permits r (marks id ∷ steps) = omega (arith, mark-permits id r, run-permits (mark id r) steps)
run-permits r (drains ∷ steps) = omega (arith, run-permits (take [] r).1 steps)

-- From the empty queue on, whatever the order of marks and drains: each drain hands over the
-- flows marked since the drain before it, once each and in the order of their first marks, so
-- none is lost or repeated; and one permit is given for each flow that was handed over or waits.
pub run-drained :
    (steps : List Step)
    → let after = run new steps in
      (after.0 ≡ drained [] steps)
      × AllDistinct after.0
      × (after.1.notified ≡ total after.0 + length after.1.queue)
run-drained steps = (
  unfold new in run-drained_from new steps new-IsValid,
  run-AllDistinct new steps new-IsValid,
  unfold new in omega (arith, run-permits new steps),
)
