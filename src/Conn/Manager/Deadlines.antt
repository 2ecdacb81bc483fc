-- ===== src/Conn/Manager/Deadlines.antt =====
-- No half-open or silent flow of src/conn.rs outlives its deadline: each keeps an entry in the
-- heap, which `expire` works off.
use tunnel_rs.Base.Table.{find, find-insert, find-remove}
use tunnel_rs.Base.{
  ℕ, ◌+◌, ◌≡◌, inl, inr, true, false, not, ◌||◌, some, List, ◌∷◌, ◌==◌, nat_eq, arith, Bool-cases,
  Option-cases, ◌⊎◌, ◌≢◌, ◌≤◌, ◌∙◌, sym, ap, subst,
}
use tunnel_rs.Conn.Flow.{flow_id_eq, FourTuple, FlowId, tcp_flow, udp_flow, tuple_eq}
use tunnel_rs.Conn.Manager.{
  TcpConn, UdpConn, ConnManager, handshake_timeout, udp_idle, open_tcp, open_udp, reap_tcp,
}
use mathlib.Core.Option.{some-injective}
use tunnel_rs.Conn.Manager.Heap.{filed, Ordered, filed-file, file-Ordered, popped}

-- Each flow in its handshake and each UDP flow has an entry at its deadline; a UDP flow's
-- deadline is no later than its use allows, and nothing was used after `clock`.
pub record IsArmed (clock : ℕ) (m : ConnManager) : Type 0 where
  pub ordered : Ordered m.deadlines
  pub handshakes :
      (key : FourTuple) (c : TcpConn)
      → find key m.tcp ≡ some c
      → c.established ≡ false
      → filed c.deadline (tcp_flow key) m.deadlines ≡ true
  pub datagrams :
      (key : FourTuple) (c : UdpConn)
      → find key m.udp ≡ some c
      → (filed c.deadline (udp_flow key) m.deadlines ≡ true)
        × (c.deadline ≤ c.last + udp_idle)
        × (c.last ≤ clock)

pub open_tcp-IsArmed :
    (clock now : ℕ) (m : ConnManager) (key : FourTuple)
    → IsArmed clock m
    → clock ≤ now
    → IsArmed now (open_tcp m key now)
unfolding open_tcp
open_tcp-IsArmed clock now m key a later =
    let c : TcpConn = record { established = false; deadline = now + handshake_timeout } in
    record {
      ordered = file-Ordered (now + handshake_timeout) (tcp_flow key) m.deadlines a.ordered;
      handshakes = λ k d there half. ground (
        arith,
        find-insert key k c m.tcp,
        tuple_eq.beq_iff key k,
        filed-file d.deadline (now + handshake_timeout) (tcp_flow k) (tcp_flow key) m.deadlines,
        a.handshakes k d,
      );
      datagrams = λ k d there.
          let (on_file, bound, past) = a.datagrams k d there in
          (
            rw
                (filed-file d.deadline (now + handshake_timeout) (udp_flow k) (tcp_flow key)
                  m.deadlines)
                (ground arith),
            bound,
            omega arith,
          );
    }

pub open_udp-IsArmed :
    (clock now : ℕ) (m : ConnManager) (key : FourTuple)
    → IsArmed clock m
    → clock ≤ now
    → IsArmed now (open_udp m key now)
unfolding open_udp
open_udp-IsArmed clock now m key a later =
    let c : UdpConn = record { last = now; deadline = now + udp_idle } in
    record {
      ordered = file-Ordered (now + udp_idle) (udp_flow key) m.deadlines a.ordered;
      handshakes = λ k d there half.
          rw (filed-file d.deadline (now + udp_idle) (tcp_flow k) (udp_flow key) m.deadlines)
            (ground (arith, a.handshakes k d there half));
      datagrams = λ k d there. elim (Bool-cases (key == k)) [
        | inl same ↦
            let e : c ≡ d = some-injective _ _ (rw (find-insert key k c m.udp, same) at there) in
            rw
              (
                ← e,
                filed-file (now + udp_idle) (now + udp_idle) (udp_flow k) (udp_flow key)
                    m.deadlines,
              )
              (ground (arith, tuple_eq.beq_iff key k))
        | inr other ↦
            let (on_file, bound, past) =
              a.datagrams k d (rw (find-insert key k c m.udp, other) at there) in
            (
              rw (filed-file d.deadline (now + udp_idle) (udp_flow k) (udp_flow key) m.deadlines)
                  (ground arith),
              bound,
              omega arith,
            )
      ];
    }

pub later-IsArmed :
    (clock now : ℕ) (m : ConnManager) → clock ≤ now → IsArmed clock m → IsArmed now m
later-IsArmed clock now m le a = record {
  ordered = a.ordered;
  handshakes = a.handshakes;
  datagrams = λ k d there.
      let (on_file, bound, past) = a.datagrams k d there in (on_file, bound, omega arith);
}

-- The manager once an entry has been taken off.
module _ (clock at : ℕ) (m : ConnManager) (id : FlowId) (h : List (ℕ × FlowId)) where
  pub rest-Ordered : IsArmed clock m → m.deadlines ≡ (at, id) ∷ h → Ordered h
  rest-Ordered a e = let o : Ordered ((at, id) ∷ h) = subst Ordered e a.ordered in o.1

  pub handshake-rest :
      (k : FourTuple) (c : TcpConn)
      → IsArmed clock m
      → m.deadlines ≡ (at, id) ∷ h
      → find k m.tcp ≡ some c
      → c.established ≡ false
      → (filed c.deadline (tcp_flow k) h ≡ true) ⊎ ((at ≡ c.deadline) × (id ≡ tcp_flow k))
  handshake-rest k c a e there half =
      popped at c.deadline id (tcp_flow k) h
        (ap (filed c.deadline (tcp_flow k)) (sym e) ∙ a.handshakes k c there half)

  pub datagram-rest :
      (k : FourTuple) (c : UdpConn)
      → IsArmed clock m
      → m.deadlines ≡ (at, id) ∷ h
      → find k m.udp ≡ some c
      → (filed c.deadline (udp_flow k) h ≡ true) ⊎ ((at ≡ c.deadline) × (id ≡ udp_flow k))
  datagram-rest k c a e there =
      let (on_file, bound, past) = a.datagrams k c there in
      popped at c.deadline id (udp_flow k) h (ap (filed c.deadline (udp_flow k)) (sym e) ∙ on_file)

module _ (clock at : ℕ) (m : ConnManager) (key : FourTuple) (h : List (ℕ × FlowId)) where
  datagrams-tcp :
      (k : FourTuple) (c : UdpConn)
      → IsArmed clock m
      → m.deadlines ≡ (at, tcp_flow key) ∷ h
      → find k m.udp ≡ some c
      → (filed c.deadline (udp_flow k) h ≡ true)
        × (c.deadline ≤ c.last + udp_idle)
        × (c.last ≤ clock)
  datagrams-tcp k c a e there =
      let (on_file, bound, past) = a.datagrams k c there in
      elim (datagram-rest clock at m (tcp_flow key) h k c a e there) [
        | inl left ↦ (left, bound, past)
        | inr (when, who) ↦ cc
      ]

  kept-tcp :
      IsArmed clock m
      → m.deadlines ≡ (at, tcp_flow key) ∷ h
      → ((c : TcpConn) → find key m.tcp ≡ some c → c.established ≡ false → c.deadline ≢ at)
      → IsArmed clock (record m { deadlines = h })
  kept-tcp a e other = record {
    ordered = rest-Ordered clock at m (tcp_flow key) h a e;
    handshakes = λ k c there half.
        elim (handshake-rest clock at m (tcp_flow key) h k c a e there half) [
          | inl left ↦ left
          | inr (when, who) ↦
              let same : key ≡ k = cc in absurd (other c (rw same there) half (sym when))
        ];
    datagrams = λ k c there. datagrams-tcp k c a e there;
  }

  pub reap_tcp-IsArmed :
      IsArmed clock m
      → m.deadlines ≡ (at, tcp_flow key) ∷ h
      → IsArmed clock (reap_tcp (record m { deadlines = h }) at key)
  unfolding reap_tcp
  reap_tcp-IsArmed a e = elim (Option-cases (find key m.tcp)) [
    | inl gone ↦ rw (gone, reap_tcp) (kept-tcp a e (λ c there half. cc))
    | inr (d, there) ↦ elim (Bool-cases (d.established || not (d.deadline == at))) [
      | inl keep ↦
          rw (there, reap_tcp, keep)
            (kept-tcp a e λ c found half same.
              let one : d ≡ c = some-injective _ _ (sym there ∙ found) in
              let k : (c.established || not (c.deadline == at)) ≡ true = rw (← one) keep in
              ground arith)
      | inr reap ↦
          rw (there, reap_tcp, reap)
            (record {
              ordered = rest-Ordered clock at m (tcp_flow key) h a e;
              handshakes = λ k c found half. elim (Bool-cases (key == k)) [
                | inl same ↦ cc (rw (find-remove key k m.tcp, same) at found)
                | inr other ↦
                    elim (handshake-rest clock at m (tcp_flow key) h k c a e
                      (rw (find-remove key k m.tcp, other) at found) half) [
                        | inl left ↦ left
                        | inr (when, who) ↦
                            let same : key ≡ k = cc in
                            absurd (ground (arith, tuple_eq.beq_iff key k))
                      ]
              ];
              datagrams = λ k c found. datagrams-tcp k c a e found;
            })
    ]
  ]
