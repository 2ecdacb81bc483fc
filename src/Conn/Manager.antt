-- ===== src/Conn/Manager.antt =====
-- The flow tables of `ConnManager` of src/conn.rs: `on_packet` and `expire`, with the budgets
-- and the heap of deadlines, and `dispatch`. Sockets, tasks, wakers and the monitor are left out: whether the
-- socket of a new flow could be set up, and what a socket has come to, are inputs. The heap is a list in ascending order.
pub mod Valid
pub mod Expiry
pub mod Heap
pub mod Deadlines
pub mod Rearm
pub mod Dispatch
use tunnel_rs.Base.Table.{
  Table, find, contains, insert, remove, Distinct, insert-Distinct, remove-Distinct,
  length-insert_found,
}
use tunnel_rs.Base.{
  ℕ, zero, suc, ◌+◌, ◌-◌, ◌<◌, ◌≡◌, refl, inl, inr, Bool, true, false, not, ◌&&◌, ◌||◌, Option,
  none, some, List, [], ◌∷◌, length, ltb, leb, ◌==◌, nat_eq, if◌then◌else◌, arith, Bool-cases,
  Option-cases, ◌>>=◌,
}
use tunnel_rs.Conn.Budget.{Budget, admits, charge, refund, Covers, charge-Covers, refund-Covers}
use tunnel_rs.Conn.Flow.{Flow, FourTuple, FlowId, tcp_flow, udp_flow, tuple_eq}

-- Durations in nanoseconds.
abbrev pub handshake_timeout : ℕ
handshake_timeout = 10_000_000_000

abbrev pub udp_idle : ℕ
udp_idle = 30_000_000_000

-- The fields of `TcpConn` and `UdpConn` that decide admission and expiry.
pub record TcpConn : Type 0 where
  pub established : Bool
  pub deadline : ℕ

pub record UdpConn : Type 0 where
  pub last : ℕ
  pub deadline : ℕ

pub record ConnManager : Type 0 where
  pub tcp : Table FourTuple TcpConn
  pub udp : Table FourTuple UdpConn
  pub tcp_budget : Budget
  pub udp_budget : Budget
  pub deadlines : List (ℕ × FlowId)

-- `deadlines.push`
unfoldable pub file : ℕ → FlowId → List (ℕ × FlowId) → List (ℕ × FlowId)
file at id [] = (at, id) ∷ []
file at id ((t, x) ∷ h) = if leb at t then (at, id) ∷ ((t, x) ∷ h) else (t, x) ∷ file at id h

unfoldable pub open_tcp : ConnManager → FourTuple → ℕ → ConnManager
open_tcp m key now = record m {
  tcp = insert key (record { established = false; deadline = now + handshake_timeout }) m.tcp;
  tcp_budget = charge m.tcp_budget;
  deadlines = file (now + handshake_timeout) (tcp_flow key) m.deadlines;
}

unfoldable pub open_udp : ConnManager → FourTuple → ℕ → ConnManager
open_udp m key now = record m {
  udp = insert key (record { last = now; deadline = now + udp_idle }) m.udp;
  udp_budget = charge m.udp_budget;
  deadlines = file (now + udp_idle) (udp_flow key) m.deadlines;
}

-- The arm of UDP in `on_packet`.
unfoldable pub admit_udp : ConnManager → Flow → Bool → ℕ → ConnManager
admit_udp m flow bound now =
    let key : FourTuple = record { src = flow.src; dst = flow.dst } in
    if flow.proto == 17 && not (contains key m.udp)
    then (if admits m.udp_budget (length m.udp) && bound then open_udp m key now else m)
    else m

-- `on_packet`; `bound` says whether `listen` or `bind` succeeded for a flow that is admitted.
unfoldable pub on_packet : ConnManager → Flow → Bool → ℕ → ConnManager
on_packet m flow bound now =
    let key : FourTuple = record { src = flow.src; dst = flow.dst } in
    if flow.proto == 6 && flow.syn && not (contains key m.tcp)
    then (if admits m.tcp_budget (length m.tcp) && bound then open_tcp m key now else m)
    else admit_udp m flow bound now

-- A due entry of TCP: a flow that is still in the handshake of that entry is reaped.
unfoldable pub reap_tcp : ConnManager → ℕ → FourTuple → ConnManager
reap_tcp m at key = elim (find key m.tcp) [
  | none ↦ m
  | some c ↦
      if c.established || not (c.deadline == at)
      then m
      else record m { tcp = remove key m.tcp; tcp_budget = refund m.tcp_budget }
]

-- A due entry of UDP: a flow that was used since is filed again, a silent one expires.
unfoldable pub due_udp : ConnManager → ℕ → FourTuple → ℕ → ConnManager
due_udp m at key now = elim (find key m.udp) [
  | none ↦ m
  | some c ↦
      if not (c.deadline == at)
      then m
      else (if ltb (now - c.last) udp_idle
          then record m {
            udp = insert key (record c { deadline = c.last + udp_idle }) m.udp;
            deadlines = file (c.last + udp_idle) (udp_flow key) m.deadlines;
          }
          else record m { udp = remove key m.udp; udp_budget = refund m.udp_budget })
]

unfoldable pub due : ConnManager → ℕ → FlowId → ℕ → ConnManager
due m at (tcp_flow key) now = reap_tcp m at key
due m at (udp_flow key) now = due_udp m at key now

-- The loop of `expire` on fuel, `none` where the fuel runs out.
unfoldable pub expire : ℕ → ConnManager → ℕ → Option ConnManager
expire zero m now = none
expire (suc fuel) m now = elim m.deadlines [
  | [] ↦ some m
  | (at, id) ∷ h ↦
      let rest = expire fuel (due (record m { deadlines = h }) at id now) now in
      if ltb now at then some m else rest
]

-- `service_tcp`: what it does to the tables, where the socket has completed its handshake or
-- not when it is first asked, and is closed or not at the end.
unfoldable pub service_tcp : ConnManager → FourTuple → Bool → Bool → ConnManager
service_tcp m key completed closed = elim (find key m.tcp) [
  | none ↦ m
  | some c ↦
      if closed
      then record m { tcp = remove key m.tcp; tcp_budget = refund m.tcp_budget }
      else record m {
        tcp = insert key (record c { established = c.established || completed }) m.tcp;
      }
]

-- `service_udp`, where a datagram was moved or not.
unfoldable pub service_udp : ConnManager → FourTuple → ℕ → Bool → ConnManager
service_udp m key now used = elim (find key m.udp) [
  | none ↦ m
  | some c ↦ if used then record m { udp = insert key (record c { last = now }) m.udp } else m
]

module _ (completed closed used : FourTuple → Bool) where
  -- The loop of `dispatch` over the flows that are ready.
  unfoldable pub service : List FlowId → ConnManager → ℕ → ConnManager
  unfolding service_tcp service_udp
  service [] m now = m
  service (tcp_flow key ∷ ids) m now =
      service ids (service_tcp m key (completed key) (closed key)) now
  service (udp_flow key ∷ ids) m now = service ids (service_udp m key now (used key)) now

  unfoldable pub dispatch : ℕ → List FlowId → ConnManager → ℕ → Option ConnManager
  unfolding expire service
  dispatch fuel ids m now = expire fuel m now >>= λ swept. some (service ids swept now)
