-- ===== src/Portmap/Lease.antt =====
-- The lease of src/portmap.rs: `exchange`, `map`, `renew` and `lease_loop`. The network and the
-- gateway are what they answer: each attempt's outcome is an input. A duration is a number of
-- nanoseconds.
pub mod Renewal
pub mod Loop
pub mod Reports
pub mod Waiting
use tunnel_rs.Base.{
  ℕ, zero, suc, ◌+◌, ◌-◌, ◌*◌, ◌/◌, ◌%◌, ◌^◌, ◌<◌, ◌≤◌, max, min, Bool, true, false, not, ◌&&◌,
  ◌||◌, Option, none, some, List, [], ◌∷◌, take, ltb, leb, ◌==◌, nat_eq, if◌then◌else◌,
}
use tunnel_rs.Portmap.Message.{
  Proto, udp, tcp, opcode, op_external, Mapping, Error, not_answering, not_carrying, restarted,
  negotiating, Result, ok, err, ◌>>=◌, ◌>>◌, build_request, parse_mapping,
}

-- The lease length asked for, in seconds.
abbrev pub lifetime_secs : ℕ
lifetime_secs = 60

abbrev pub second : ℕ
second = 1_000_000_000

abbrev pub min_renew : ℕ
min_renew = 10 * second

abbrev pub retry : ℕ
retry = 10 * second

abbrev pub sleep_slice : ℕ
sleep_slice = 500_000_000

abbrev pub quiet_failures : ℕ
quiet_failures = 2

-- How one attempt of `exchange` ends: which call failed, or what came back.
pub data Attempt : Type 0 where
  bind_failed no_route timeout_not_set send_failed silent : Attempt
  answered : List ℕ → Attempt

-- The outcomes of the three attempts of one exchange, for the request that was sent.
abbrev pub Gateway : Type 0
Gateway = List ℕ → Attempt × Attempt × Attempt

-- The loop over `ATTEMPTS`; `sent` says whether a request ever left. The buffer holds 64 bytes.
unfoldable pub attempts : Bool → List Attempt → Result (List ℕ)
attempts sent [] = if sent then err not_answering else err not_carrying
attempts sent (answered bytes ∷ rest) = ok (take 64 bytes)
attempts sent (silent ∷ rest) = attempts true rest
attempts sent (bind_failed ∷ rest) = attempts sent rest
attempts sent (no_route ∷ rest) = attempts sent rest
attempts sent (timeout_not_set ∷ rest) = attempts sent rest
attempts sent (send_failed ∷ rest) = attempts sent rest

unfoldable pub exchange : Gateway → List ℕ → Result (List ℕ)
exchange gateway request =
    let (first, second, third) = gateway request in attempts false (first ∷ second ∷ third ∷ [])

-- `map`: the internal port is 0.
unfoldable pub map_port : Gateway → Proto → ℕ → ℕ → Result Mapping
map_port gateway proto suggested lifetime =
    exchange gateway (build_request (opcode proto) 0 suggested lifetime) >>= λ response.
    parse_mapping response proto

unfoldable pub gateway_restarted : Option ℕ → ℕ → Bool
gateway_restarted none current = false
gateway_restarted (some p) current = ltb current p

-- What `renew` keeps between its calls.
pub record Held : Type 0 where
  pub current : Option ℕ
  pub epoch : Option ℕ

abbrev pub suggestion : Option ℕ → ℕ
suggestion none = 1
suggestion (some p) = p

-- The gateway's answers during one renewal, one exchange for each protocol.
pub record Answers : Type 0 where
  pub to_udp : Gateway
  pub to_tcp : Gateway

-- The rest of `renew` once the TCP mapping has been asked for: the UDP port wins.
unfoldable pub confirm : Held → Mapping → Result Mapping → Result Mapping × Held
confirm held m (err e) = (err e, held)
confirm held m (ok t) = (ok m, record held { current = some m.external })

-- The rest of `renew` once UDP is mapped.
unfoldable pub follow : Answers → Held → Result Mapping → Result Mapping × Held
follow a held (err e) = (err e, held)
follow a held (ok m) =
    if gateway_restarted held.epoch m.epoch
    then (err restarted, record { current = none; epoch = some m.epoch })
    else confirm (record held { epoch = some m.epoch }) m
        (map_port a.to_tcp tcp m.external lifetime_secs)

unfoldable pub renew : Answers → Held → Result Mapping × Held
renew a held = follow a held (map_port a.to_udp udp (suggestion held.current) lifetime_secs)

unfoldable pub renew_after : ℕ → ℕ
renew_after granted = max (granted / 2) min_renew

-- What the lease loop tells the exit driver.
pub data Event : Type 0 where
  mapped : ℕ → Event
  pending : Error → Event
  lost : Error → Event

-- The variables of `lease_loop`.
pub record Lease : Type 0 where
  pub held : Held
  pub announced : Option ℕ
  pub failures : ℕ

unfoldable pub start : Lease
start = record { held = record { current = none; epoch = none }; announced = none; failures = 0 }

pub record Pass : Type 0 where
  pub lease : Lease
  pub event : Event
  pub wait : ℕ

-- One pass of the loop after `renew`. The counter is a `u32` that wraps.
unfoldable pub settle : Lease → Result Mapping × Held → Pass
settle l (ok m, held) = record {
  lease = record { held = held; announced = some m.external; failures = 0 };
  event = mapped m.external;
  wait = renew_after (m.lifetime * second);
}
settle l (err e, held) =
    let failures = (l.failures + 1) % 2 ^ 32 in
    record {
      lease = record { held = held; announced = none; failures = failures };
      event = if leb failures quiet_failures then pending e else lost e;
      wait = retry;
    }

unfoldable pub pass : Lease → Answers → Pass
pass l a = settle l (renew a l.held)

-- The events of the passes that are made before the shutdown, and the lease that is then left.
unfoldable pub run : Lease → List Answers → List Event × Lease
run l [] = ([], l)
run l (a ∷ later) = let p = pass l a in let rest = run p.lease later in (p.event ∷ rest.0, rest.1)

-- The releases at the end of `lease_loop`: the requests that are sent, in order.
unfoldable pub releases : Lease → List (List ℕ)
releases l = elim l.held.current [
  | none ↦ []
  | some _ ↦ build_request (opcode udp) 0 0 0 ∷ build_request (opcode tcp) 0 0 0 ∷ []
]

-- The whole loop: what it reports, and the requests that release the lease. A driver that has
-- gone away ends it like a shutdown, with the last event undelivered. The address of the exit
-- is asked for a log line alone and is left out.
unfoldable pub lease_loop : List Answers → List Event × List (List ℕ)
lease_loop passes = let rest = run start passes in (pending negotiating ∷ rest.0, releases rest.1)

-- `sleep_interruptibly` with the shutdown flag read before each slice: the slices slept, in
-- nanoseconds. One round for each slice, and `none` if the rounds run out.
unfoldable pub sleep : ℕ → (ℕ → Bool) → ℕ → Option (List ℕ)
sleep zero shutdown left = none
sleep (suc rounds) shutdown left =
    let slice = min left sleep_slice in
    let rest = sleep rounds (λ i. shutdown (suc i)) (left - slice) in
    if left == 0 || shutdown 0
    then some []
    else (elim rest [ none ↦ none | some slices ↦ some (slice ∷ slices) ])
