-- ===== src/Tests/Conn.antt =====
-- The parts of src/conn.rs at concrete inputs.
use tunnel_rs.Base.Bytes.{byte, u16_at}
use tunnel_rs.Base.{
  ℕ, ◌<◌, ◌≤◌, ◌≡◌, refl, true, false, some, List, [], ◌∷◌, length, take, ◌+◌, ◌++◌, arith,
}
use tunnel_rs.Base.Table.{find, contains, insert}
use tunnel_rs.Conn.Flow.{
  Endpoint, Flow, FourTuple, FlowId, udp_flow, tcp_flow, flow_id_eq, parse_flow, parse_l4, flow_at,
}
use tunnel_rs.Conn.Manager.Valid
use tunnel_rs.Conn.Manager.Deadlines
use tunnel_rs.Conn.Manager.Dispatch
use tunnel_rs.Conn.Manager.Expiry.{overdue}
use tunnel_rs.Conn.Manager.{ConnManager, dispatch, on_packet, admit_udp, open_udp, file}
use tunnel_rs.Conn.Budget.{Budget, admits, charge}
use tunnel_rs.Conn.Pending
use tunnel_rs.Conn.Pending.{Pending, empty, push, front, front_of, advance, contents, is_empty}
use tunnel_rs.Conn.Ready
use tunnel_rs.Conn.Ready.{mark, has, marks, drains}
use tunnel_rs.Wg.Packet.{addr_at}

-- Three bytes in two chunks, the first byte handed over.
abbrev held : Pending
held = record { chunks = (1 ∷ 2 ∷ []) ∷ (3 ∷ []) ∷ []; head = 1; bytes = 2 }

held-IsValid : Pending.IsValid held
unfolding contents
held-IsValid = record {
  filled = (omega arith, (omega arith, tt));
  fits = omega arith;
  counted = refl;
}

front_held : 1 ≤ length (front held)
unfolding front front_of
front_held = omega arith

advance_lem_example :
    (take 1 (front held) ++ contents (advance held 1) ≡ contents held)
    × Pending.IsValid (advance held 1)
advance_lem_example = Pending.advance_lem held 1 held-IsValid front_held

held_waits : is_empty held ≡ false
unfolding is_empty
held_waits = refl

abbrev client : Endpoint
client = record { ip = record { a = 198; b = 18; c = 0; d = 1 }; port = 5000 }

abbrev remote : Endpoint
remote = record { ip = record { a = 1; b = 1; c = 1; d = 1 }; port = 53 }

abbrev tuple : FourTuple
tuple = record { src = client; dst = remote }

abbrev one : FlowId
one = udp_flow tuple

abbrev other : FlowId
other = tcp_flow tuple

-- Two flows marked by turns, drained, and one of them marked again.
abbrev steps : List Ready.Step
steps = marks one ∷ marks other ∷ marks one ∷ drains ∷ marks other ∷ []

run-drained_example :
    ((Ready.run Ready.new steps).0 ≡ Ready.drained [] steps)
    × Ready.AllDistinct (Ready.run Ready.new steps).0
    × ((Ready.run Ready.new steps).1.notified
        ≡ Ready.total (Ready.run Ready.new steps).0 + length (Ready.run Ready.new steps).1.queue)
run-drained_example = Ready.run-drained steps

steps_drained : (Ready.run Ready.new steps).0 ≡ (one ∷ other ∷ []) ∷ []
unfolding Ready.new mark has Ready.take
steps_drained = refl

-- A DNS query's headers.
abbrev query : List ℕ
query =
    0x45 ∷ 0 ∷ 0 ∷ 28 ∷ 0 ∷ 1 ∷ 0 ∷ 0 ∷ 64 ∷ 17 ∷ 0 ∷ 0 ∷ 198 ∷ 18 ∷ 0 ∷ 1 ∷ 1 ∷ 1 ∷ 1 ∷ 1 ∷ 19
    ∷ 136 ∷ 0 ∷ 53 ∷ 0 ∷ 8 ∷ 0 ∷ 0 ∷ []

abbrev query_flow : Flow
query_flow = record { proto = 17; src = client; dst = remote; syn = false }

query_parsed : parse_flow query ≡ some query_flow
unfolding parse_flow parse_l4 flow_at byte u16_at addr_at
query_parsed = refl

-- A manager without flows that may hold two of each protocol.
abbrev budget : Budget
budget = record { charged = 0; cost = 10; max_flows = 2; max_bytes = 25 }

abbrev idle_manager : ConnManager
idle_manager = record {
  tcp = [];
  udp = [];
  tcp_budget = budget;
  udp_budget = budget;
  deadlines = [];
}

idle_manager-IsValid : Valid.IsValid idle_manager
idle_manager-IsValid = record {
  distinct_tcp = tt;
  distinct_udp = tt;
  covers_tcp = record { exact = omega arith; bytes = omega arith; flows = omega arith };
  covers_udp = record { exact = omega arith; bytes = omega arith; flows = omega arith };
}

query_admitted :
    (on_packet idle_manager query_flow true 5).deadlines ≡ (30_000_000_005, udp_flow tuple) ∷ []
unfolding on_packet admit_udp open_udp admits charge file contains insert
query_admitted = refl

on_packet-IsValid_example : Valid.IsValid (on_packet idle_manager query_flow true 5)
on_packet-IsValid_example =
    Valid.on_packet-IsValid idle_manager query_flow true 5 idle_manager-IsValid

idle_manager-IsArmed : Deadlines.IsArmed 0 idle_manager
unfolding find
idle_manager-IsArmed = record {
  ordered = tt;
  handshakes = λ k c there half. cc;
  datagrams = λ k c there. cc;
}

on_packet-IsArmed_example : Deadlines.IsArmed 5 (on_packet idle_manager query_flow true 5)
on_packet-IsArmed_example =
    Dispatch.on_packet-IsArmed 0 5 idle_manager query_flow true idle_manager-IsArmed (omega arith)

-- The flow that the query opened, at its deadline.
abbrev query_manager : ConnManager
query_manager = on_packet idle_manager query_flow true 5

query_manager-IsValid : Valid.IsValid query_manager
query_manager-IsValid = Valid.on_packet-IsValid idle_manager query_flow true 5 idle_manager-IsValid

query_manager-IsArmed : Deadlines.IsArmed 5 query_manager
query_manager-IsArmed =
    Dispatch.on_packet-IsArmed 0 5 idle_manager query_flow true idle_manager-IsArmed (omega arith)

query_overdue : overdue 30_000_000_005 query_manager.deadlines < 2
query_overdue = rw query_admitted (omega arith)

dispatch-IsCurrent_example :
    (after : ConnManager) × (dispatch
        (λ k. true)
        (λ k. false)
        (λ k. true)
        2
        (udp_flow tuple ∷ [])
        query_manager
        30_000_000_005
      ≡ some after)
    × Valid.IsValid after
    × Deadlines.IsArmed 30_000_000_005 after
    × Dispatch.IsCurrent 30_000_000_005 after
dispatch-IsCurrent_example =
    Dispatch.dispatch-IsCurrent (λ k. true) (λ k. false) (λ k. true) 2 (udp_flow tuple ∷ [])
      query_manager 5 30_000_000_005 query_manager-IsValid query_manager-IsArmed (omega arith)
      query_overdue
