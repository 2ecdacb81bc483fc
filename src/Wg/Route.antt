-- ===== src/Wg/Route.antt =====
-- The driver of src/wg.rs as far as it moves the forwarded port: how `route` installs the
-- forward, follows the lease's events and publishes the state of src/state.rs; and the plan
-- that `from_settings` makes of the configured forward.
use tunnel_rs.Base.{
  ℕ, ◌≡◌, ◌↔◌, Option-cases, inl, inr, Option, none, some, ◌==◌, nat_eq, if◌then◌else◌, arith,
}
use tunnel_rs.Portmap.Lease.{Event, mapped, pending, lost, Lease}
use tunnel_rs.Portmap.Message.{Error}
use tunnel_rs.Wg.Address.{Ipv4Addr, tunnel_gateway}
use tunnel_rs.Wg.Nat.State.{Nat, new, set_forward, clear_forward, forward_port}
use tunnel_rs.Wg.Nat.Tables.{IsValid}
use tunnel_rs.Wg.Nat.Valid.{set_forward-IsValid, clear_forward-IsValid}

-- `state::Forward`: where the forwarded port stands.
pub data Standing : Type 0 where
  requesting : Error → Standing
  is_open : ℕ → Standing
  failed : Error → Standing

-- `settings::PortForward`, and the plan that it resolves to.
pub data PortForward : Type 0 where
  fixed : ℕ → PortForward
  nat_pmp : PortForward

pub data ForwardPlan : Type 0 where
  fixed_plan : Ipv4Addr → ℕ → ForwardPlan
  leased_plan : Ipv4Addr → Ipv4Addr → ForwardPlan

-- The plan of `from_settings`: `none` where the configuration is refused.
unfoldable pub plan : Option PortForward → Ipv4Addr → Ipv4Addr → Option (Option ForwardPlan)
plan none tun_ip address = some none
plan (some (fixed port)) tun_ip address =
    if port == 0 then none else some (some (fixed_plan tun_ip port))
plan (some nat_pmp) tun_ip address = some (some (leased_plan tun_ip (tunnel_gateway address)))

-- The NAT, the published state, and the host that the driver forwards to.
pub record Driver : Type 0 where
  pub nat : Nat
  pub status : Option Standing
  pub host : Option Ipv4Addr

-- What `route` sets up before its loop.
unfoldable pub set_up : Ipv4Addr → Option ForwardPlan → Driver
set_up address none = record { nat = new address; status = none; host = none }
set_up address (some (fixed_plan host port)) = record {
  nat = set_forward (new address) host port;
  status = some (is_open port);
  host = some host;
}
set_up address (some (leased_plan host gateway)) = record {
  nat = new address;
  status = none;
  host = some host;
}

-- The arm of the loop that takes an event of the lease.
unfoldable pub follow_event : Driver → Ipv4Addr → Event → Driver
follow_event d host (mapped port) = record d {
  nat = set_forward d.nat host port;
  status = some (is_open port);
}
follow_event d host (pending e) = record d {
  nat = clear_forward d.nat;
  status = some (requesting e);
}
follow_event d host (lost e) = record d { nat = clear_forward d.nat; status = some (failed e) }

-- The arm is guarded by a host to forward to.
unfoldable pub on_event : Driver → Event → Driver
on_event d ev = elim d.host [ none ↦ d | some host ↦ follow_event d host ev ]

-- The published state is that of the NAT: a port is shown as open exactly where the NAT
-- forwards it.
pub Shows : Driver → Type 0
Shows d = (p : ℕ) → (d.status ≡ some (is_open p)) ↔ (forward_port d.nat ≡ some p)

-- The driver starts out showing what the NAT does.
pub set_up-Shows :
    (address : Ipv4Addr) (forward : Option ForwardPlan) → Shows (set_up address forward)
unfolding Shows set_up forward_port set_forward new
set_up-Shows address none p = ((λ h. cc), (λ h. cc))
set_up-Shows address (some (fixed_plan host port)) p = ((λ h. ground arith), (λ h. ground arith))
set_up-Shows address (some (leased_plan host gateway)) p = ((λ h. cc), (λ h. cc))

-- No event of the lease makes the dashboard and the NAT disagree.
pub on_event-Shows : (d : Driver) (ev : Event) → Shows d → Shows (on_event d ev)
unfolding Shows on_event follow_event forward_port set_forward clear_forward
on_event-Shows d (mapped port) s p = elim (Option-cases d.host) [
  | inl e ↦ rw (e, on_event) (s p)
  | inr (host, e) ↦ rw (e, on_event) ((λ h. ground arith), (λ h. ground arith))
]
on_event-Shows d (pending x) s p = elim (Option-cases d.host) [
  | inl e ↦ rw (e, on_event) (s p)
  | inr (host, e) ↦ rw (e, on_event) ((λ h. cc), (λ h. cc))
]
on_event-Shows d (lost x) s p = elim (Option-cases d.host) [
  | inl e ↦ rw (e, on_event) (s p)
  | inr (host, e) ↦ rw (e, on_event) ((λ h. cc), (λ h. cc))
]

-- An event leaves the tables of the NAT well formed.
pub on_event-IsValid : (d : Driver) (ev : Event) → IsValid d.nat → IsValid (on_event d ev).nat
unfolding on_event follow_event
on_event-IsValid d ev v = elim (Option-cases d.host) [
  | inl e ↦ rw (e, on_event) v
  | inr (host, e) ↦ rw (e, on_event) (followed host ev)
]
  where
    followed : (host : Ipv4Addr) (ev : Event) → IsValid (follow_event d host ev).nat
    followed host (mapped port) = set_forward-IsValid d.nat host port v
    followed host (pending x) = clear_forward-IsValid d.nat v
    followed host (lost x) = clear_forward-IsValid d.nat v
