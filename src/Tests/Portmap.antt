-- ===== src/Tests/Portmap.antt =====
-- The lease of src/portmap.rs against a gateway that grants, one that restarts and one that is
-- silent; and the driver that follows it.
use tunnel_rs.Base.Bytes.{byte, u16_at}
use tunnel_rs.Base.{ℕ, ◌+◌, ◌≡◌, ◌↔◌, refl, none, some, List, [], ◌∷◌, ltb, arith}
use tunnel_rs.Portmap.Lease.Loop
use tunnel_rs.Portmap.Lease.Reports
use tunnel_rs.Portmap.Lease.Loop.{standing, is_lost, AllStanding}
use tunnel_rs.Portmap.Lease.Renewal
use tunnel_rs.Portmap.Lease.Waiting
use tunnel_rs.Portmap.Lease.Waiting.{sum}
use tunnel_rs.Portmap.Lease.{
  silent, answered, Gateway, attempts, exchange, map_port, gateway_restarted, Held, Answers,
  confirm, follow, renew, renew_after, mapped, pending, lost, Lease, start, pass, settle, run,
  sleep, lifetime_secs,
}
use tunnel_rs.Portmap.Message.Laws
use tunnel_rs.Portmap.Message.Laws.{Grants}
use tunnel_rs.Portmap.Message.{
  udp, Mapping, not_answering, ok, err, u32_at, build_request, check_header, parse_mapping,
  map_response,
}
use tunnel_rs.Wg.Address.{Ipv4Addr}
use tunnel_rs.Wg.Nat.State.{new, set_forward, clear_forward, forward_port}
use tunnel_rs.Wg.Route
use tunnel_rs.Wg.Route.{Driver, set_up, leased_plan, on_event, follow_event, Shows}

-- Opens the lease for the runs below.
program : Unit {0}
unfolding byte u16_at u32_at build_request check_header parse_mapping map_response attempts exchange
    map_port gateway_restarted confirm follow renew renew_after settle pass run start sleep set_up
    on_event follow_event new set_forward clear_forward forward_port
program = tt

-- A gateway that grants port 50000 for 60 seconds to the protocol of the opcode.
abbrev granting : ℕ → ℕ → Gateway
granting op epoch request = (
  silent,
  answered (0 ∷ (op + 128) ∷ 0 ∷ 0 ∷ 0 ∷ 0 ∷ 0 ∷ epoch ∷ 0 ∷ 0 ∷ 195 ∷ 80 ∷ 0 ∷ 0 ∷ 0 ∷ 60 ∷ []),
  silent,
)

abbrev dead : Gateway
dead request = (silent, silent, silent)

abbrev good : Answers
good = record { to_udp = granting 1 9; to_tcp = granting 2 9 }

abbrev bad : Answers
bad = record { to_udp = dead; to_tcp = dead }

abbrev grant : Mapping
grant = record { external = 50000; lifetime = 60; epoch = 9 }

abbrev fresh_held : Held
fresh_held = record { current = none; epoch = none }

abbrev later_held : Held
later_held = record { current = some 50000; epoch = some 30 }

udp_granted : map_port (granting 1 9) udp 50000 lifetime_secs ≡ ok grant
unfolding program
udp_granted = refl

parse_mapping-eq-ok_iff_example :
    (parse_mapping (map_response 1 0 50000 60 9) udp ≡ ok grant)
    ↔ Grants (map_response 1 0 50000 60 9) udp grant
parse_mapping-eq-ok_iff_example =
    Laws.parse_mapping-eq-ok_iff (map_response 1 0 50000 60 9) udp grant

-- The third failure in a row is a loss, and a renewal after it opens the port again.
run-reports_example :
    ((run start (bad ∷ bad ∷ bad ∷ good ∷ [])).0
      ≡ Reports.reports 0 (Reports.outcomes start.held (bad ∷ bad ∷ bad ∷ good ∷ [])))
    × (Reports.waits start (bad ∷ bad ∷ bad ∷ good ∷ [])
        ≡ Reports.pauses (Reports.outcomes start.held (bad ∷ bad ∷ bad ∷ good ∷ [])))
unfolding start
run-reports_example =
    Reports.run-reports start (bad ∷ bad ∷ bad ∷ good ∷ []) (unfold start in omega arith)

all_reported :
    (run start (bad ∷ bad ∷ bad ∷ good ∷ [])).0
    ≡ pending not_answering ∷ pending not_answering ∷ lost not_answering ∷ mapped 50000 ∷ []
unfolding program
all_reported = refl

-- A lease that failed twice already.
abbrev failing : Lease
failing = record { held = fresh_held; announced = none; failures = 2 }

bad_fails : (renew bad fresh_held).0 ≡ err not_answering
unfolding program
bad_fails = refl

bad_held : (pass failing bad).lease.held ≡ fresh_held
unfolding program
bad_held = refl

all_bad : Loop.AllFail failing (bad ∷ [])
all_bad = ((not_answering, bad_fails), tt)

run-IsSettled_example : Loop.IsSettled (run start (good ∷ bad ∷ [])).1
run-IsSettled_example = Loop.run-IsSettled start (good ∷ bad ∷ []) Loop.start-IsSettled

-- The shutdown that the second look finds ends a sleep of 1.2 seconds after one slice.
sleep-first_set_example :
    (slices : List ℕ) × (sleep 4 (λ i. ltb 0 i) 1_200_000_000 ≡ some slices)
    × (sum slices ≡ 500_000_000)
sleep-first_set_example = Waiting.sleep-first_set 3 (λ i. ltb 0 i) 1_200_000_000 (omega arith)

abbrev tun : Ipv4Addr
tun = record { a = 198; b = 18; c = 0; d = 1 }

abbrev driver : Driver
driver = set_up tun (some (leased_plan tun tun))

on_event-Shows_example : Shows (on_event driver (mapped 50000))
on_event-Shows_example =
    Route.on_event-Shows driver (mapped 50000) (Route.set_up-Shows tun (some (leased_plan tun tun)))
