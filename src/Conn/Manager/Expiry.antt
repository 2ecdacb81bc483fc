-- ===== src/Conn/Manager/Expiry.antt =====
-- Why `expire` of src/conn.rs ends.
use tunnel_rs.Base.Table.{find}
use tunnel_rs.Base.{
  ℕ, zero, suc, ◌+◌, ◌-◌, ◌<◌, ◌≡◌, refl, inl, inr, not, ◌||◌, some, List, [], ◌∷◌, ltb, leb, ◌==◌,
  nat_eq, if◌then◌else◌, arith, Bool-cases, Option-cases,
}
use tunnel_rs.Conn.Flow.{FlowId, tcp_flow, udp_flow, tuple_eq}
use tunnel_rs.Conn.Manager.{ConnManager, udp_idle, file, reap_tcp, due_udp, due, expire}
use tunnel_rs.Conn.Manager.Valid.{IsValid, due-IsValid}

-- How many entries of the heap are due.
abbrev pub overdue : ℕ → List (ℕ × FlowId) → ℕ
overdue now [] = 0
overdue now ((t, x) ∷ h) = (if leb t now then 1 else 0) + overdue now h

-- No entry at the top of the heap is due.
abbrev pub NoneDue : ℕ → List (ℕ × FlowId) → Type 0
NoneDue now [] = Unit {0}
NoneDue now ((t, x) ∷ h) = now < t

overdue-file :
    (now at : ℕ) (id : FlowId) (h : List (ℕ × FlowId))
    → now < at
    → overdue now (file at id h) ≡ overdue now h
unfolding file
overdue-file now at id [] later = ground arith
overdue-file now at id ((t, x) ∷ h) later = ground (arith, overdue-file now at id h later)

pub overdue-due :
    (m : ConnManager) (at : ℕ) (id : FlowId) (now : ℕ)
    → overdue now (due m at id now).deadlines ≡ overdue now m.deadlines
unfolding due reap_tcp due_udp
overdue-due m at (tcp_flow key) now = elim (Option-cases (find key m.tcp)) [
  | inl e ↦ rw (e, due, reap_tcp) refl
  | inr (c, e) ↦ elim (Bool-cases (c.established || not (c.deadline == at))) [
    | inl keep ↦ rw (e, due, reap_tcp, keep) refl
    | inr reap ↦ rw (e, due, reap_tcp, reap) refl
  ]
]
overdue-due m at (udp_flow key) now = elim (Option-cases (find key m.udp)) [
  | inl e ↦ rw (e, due, due_udp) refl
  | inr (c, e) ↦ elim (Bool-cases (not (c.deadline == at))) [
    | inl stale ↦ rw (e, due, due_udp, stale) refl
    | inr own ↦ elim (Bool-cases (ltb (now - c.last) udp_idle)) [
      | inl live ↦
          rw (e, due, due_udp, own, live)
            (overdue-file now (c.last + udp_idle) (udp_flow key) m.deadlines (ground arith))
      | inr silent ↦ rw (e, due, due_udp, own, silent) refl
    ]
  ]
]

-- With one round more than there are due entries `expire` ends: no entry that it files again is
-- due, so it never spins. A well-formed manager is then well formed, and the heap's first entry
-- is not due.
pub expire_total :
    (fuel : ℕ) (m : ConnManager) (now : ℕ)
    → IsValid m
    → overdue now m.deadlines < fuel
    → (after : ConnManager) × (expire fuel m now ≡ some after)
      × IsValid after
      × NoneDue now after.deadlines
unfolding expire
expire_total zero m now v enough = absurd (omega arith)
expire_total (suc fuel) m now v enough = go m.deadlines refl (λ k. expire_total fuel k now)
  where
    go :
        (h : List (ℕ × FlowId))
        → m.deadlines ≡ h
        → ((k : ConnManager)
            → IsValid k
            → overdue now k.deadlines < fuel
            → (after : ConnManager) × (expire fuel k now ≡ some after)
              × IsValid after
              × NoneDue now after.deadlines)
        → (after : ConnManager) × (expire (suc fuel) m now ≡ some after)
          × IsValid after
          × NoneDue now after.deadlines
    go [] e again = (m, rw e refl, v, rw e tt)
    go ((at, id) ∷ h) e again = elim (Bool-cases (ltb now at)) [
      | inl later ↦ (m, rw (e, later) refl, v, rw e (ground arith))
      | inr is_due ↦
          let rest : ConnManager = record m { deadlines = h } in
          let rest_valid : IsValid rest = record {
            distinct_tcp = v.distinct_tcp;
            distinct_udp = v.distinct_udp;
            covers_tcp = v.covers_tcp;
            covers_udp = v.covers_udp;
          } in
          let fewer : overdue now h < fuel = ground (arith, e) in
          let (after, run, valid, done) =
            again (due rest at id now) (due-IsValid rest at id now rest_valid)
              (rw (overdue-due rest at id now) fewer) in
          (after, rw (e, is_due) run, valid, done)
    ]
