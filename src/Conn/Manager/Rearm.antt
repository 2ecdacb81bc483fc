-- ===== src/Conn/Manager/Rearm.antt =====
-- What a due entry of a UDP flow does to the deadlines of src/conn.rs.
use tunnel_rs.Base.Table.{find, insert, remove, find-insert, find-remove}
use tunnel_rs.Base.{
  ℕ, ◌+◌, ◌-◌, ◌≡◌, inl, inr, true, false, not, some, List, ◌∷◌, ltb, ◌==◌, nat_eq, arith,
  Bool-cases, Option-cases, ◌≢◌, ◌≤◌, ◌∙◌, sym, ap,
}
use tunnel_rs.Conn.Budget.{refund}
use tunnel_rs.Conn.Flow.{flow_id_eq, FourTuple, FlowId, tcp_flow, udp_flow, tuple_eq}
use tunnel_rs.Conn.Manager.{TcpConn, UdpConn, ConnManager, udp_idle, file, due_udp}
use mathlib.Core.Option.{some-injective}
use tunnel_rs.Conn.Manager.Heap.{filed, filed-file, file-filed, file-Ordered}
use tunnel_rs.Conn.Manager.Deadlines.{IsArmed, rest-Ordered, handshake-rest, datagram-rest}

module _ (clock at : ℕ) (m : ConnManager) (key : FourTuple) (h : List (ℕ × FlowId)) where
  handshakes-udp :
      (k : FourTuple) (c : TcpConn)
      → IsArmed clock m
      → m.deadlines ≡ (at, udp_flow key) ∷ h
      → find k m.tcp ≡ some c
      → c.established ≡ false
      → filed c.deadline (tcp_flow k) h ≡ true
  handshakes-udp k c a e there half =
      elim (handshake-rest clock at m (udp_flow key) h k c a e there half) [
        | inl left ↦ left
        | inr (when, who) ↦ cc
      ]

  -- The entry of another flow, or of another deadline, is still there.
  datagrams-udp :
      (k : FourTuple) (c : UdpConn)
      → IsArmed clock m
      → m.deadlines ≡ (at, udp_flow key) ∷ h
      → find k m.udp ≡ some c
      → ((key ≡ k) → at ≢ c.deadline)
      → (filed c.deadline (udp_flow k) h ≡ true)
        × (c.deadline ≤ c.last + udp_idle)
        × (c.last ≤ clock)
  datagrams-udp k c a e there other =
      let (on_file, bound, past) = a.datagrams k c there in
      elim (datagram-rest clock at m (udp_flow key) h k c a e there) [
        | inl left ↦ (left, bound, past)
        | inr (when, who) ↦ let same : key ≡ k = cc in absurd (other same when)
      ]

  kept-udp :
      IsArmed clock m
      → m.deadlines ≡ (at, udp_flow key) ∷ h
      → ((c : UdpConn) → find key m.udp ≡ some c → at ≢ c.deadline)
      → IsArmed clock (record m { deadlines = h })
  kept-udp a e other = record {
    ordered = rest-Ordered clock at m (udp_flow key) h a e;
    handshakes = λ k c there half. handshakes-udp k c a e there half;
    datagrams = λ k c there. datagrams-udp k c a e there (λ same. other c (rw same there));
  }

  rearmed :
      (c : UdpConn)
      → IsArmed clock m
      → m.deadlines ≡ (at, udp_flow key) ∷ h
      → find key m.udp ≡ some c
      → IsArmed clock (record m {
        udp = insert key (record c { deadline = c.last + udp_idle }) m.udp;
        deadlines = file (c.last + udp_idle) (udp_flow key) h;
      })
  rearmed c a e there =
      let next : UdpConn = record c { deadline = c.last + udp_idle } in
      let (own, limit, past) = a.datagrams key c there in
      record {
        ordered =
            file-Ordered (c.last + udp_idle) (udp_flow key) h
              (rest-Ordered clock at m (udp_flow key) h a e);
        handshakes = λ k d found half.
            rw (filed-file d.deadline (c.last + udp_idle) (tcp_flow k) (udp_flow key) h)
              (ground (arith, handshakes-udp k d a e found half));
        datagrams = λ k d found. elim (Bool-cases (key == k)) [
          | inl same ↦
              let f : next ≡ d =
                some-injective _ _ (rw (find-insert key k next m.udp, same) at found) in
              rw (← f) (
                file-filed (c.last + udp_idle) (udp_flow key) (udp_flow k) h
                    (ap udp_flow ((tuple_eq.beq_iff key k).0 same)),
                omega arith,
                past,
              )
          | inr other ↦
              let (on_file, bound, before) =
                datagrams-udp k d a e (rw (find-insert key k next m.udp, other) at found)
                  (λ same. absurd (ground (arith, tuple_eq.beq_iff key k))) in
              (
                rw (filed-file d.deadline (c.last + udp_idle) (udp_flow k) (udp_flow key) h)
                    (ground arith),
                bound,
                before,
              )
        ];
      }

  removed-udp :
      IsArmed clock m
      → m.deadlines ≡ (at, udp_flow key) ∷ h
      → IsArmed clock
          (record m { udp = remove key m.udp; udp_budget = refund m.udp_budget; deadlines = h })
  removed-udp a e = record {
    ordered = rest-Ordered clock at m (udp_flow key) h a e;
    handshakes = λ k c there half. handshakes-udp k c a e there half;
    datagrams = λ k c found. elim (Bool-cases (key == k)) [
      | inl same ↦ cc (rw (find-remove key k m.udp, same) at found)
      | inr other ↦
          datagrams-udp k c a e (rw (find-remove key k m.udp, other) at found)
            (λ same. absurd (ground (arith, tuple_eq.beq_iff key k)))
    ];
  }

  pub due_udp-IsArmed :
      (now : ℕ)
      → IsArmed clock m
      → m.deadlines ≡ (at, udp_flow key) ∷ h
      → IsArmed clock (due_udp (record m { deadlines = h }) at key now)
  unfolding due_udp
  due_udp-IsArmed now a e = elim (Option-cases (find key m.udp)) [
    | inl gone ↦ rw (gone, due_udp) (kept-udp a e (λ c there same. cc))
    | inr (d, there) ↦ elim (Bool-cases (not (d.deadline == at))) [
      | inl stale ↦
          rw (there, due_udp, stale)
            (kept-udp a e λ c found same.
              let one : d ≡ c = some-injective _ _ (sym there ∙ found) in
              let k : not (c.deadline == at) ≡ true = rw (← one) stale in ground arith)
      | inr own ↦ elim (Bool-cases (ltb (now - d.last) udp_idle)) [
        | inl live ↦ rw (there, due_udp, own, live) (rearmed d a e there)
        | inr silent ↦ rw (there, due_udp, own, silent) (removed-udp a e)
      ]
    ]
  ]
