-- ===== src/Portmap/Lease/Renewal.antt =====
-- What a renewal of src/portmap.rs leaves behind, on every outcome.
use tunnel_rs.Base.{
  ℕ, ◌<◌, ◌≤◌, ◌≡◌, refl, inl, inr, ◌↔◌, true, false, Option, none, some, nat_eq, arith, Bool-cases,
  ltb→lt,
}
use tunnel_rs.Portmap.Message.{udp, tcp, Mapping, restarted, Result, ok, err}
use tunnel_rs.Portmap.Lease.{
  Held, Answers, map_port, gateway_restarted, suggestion, lifetime_secs, confirm, follow, renew,
  renew_after, min_renew,
}

-- The gateway came back with a smaller count of seconds than the last one.
pub gateway_restarted_iff :
    (previous : Option ℕ) (current : ℕ)
    → (gateway_restarted previous current ≡ true) ↔ ((p : ℕ) × (previous ≡ some p) × (current < p))
unfolding gateway_restarted
gateway_restarted_iff none current = ((λ h. cc), (λ h. cc (h.1)))
gateway_restarted_iff (some p) current = ((λ h. (p, refl, ltb→lt current p h)), (λ h. ground arith))

-- How a renewal that obtained a lease came about: UDP was mapped by a gateway that has not
-- restarted, TCP was mapped too, with the UDP port suggested, and the state holds the UDP port
-- and the epoch of that answer.
pub record Renewed (a : Answers) (held : Held) (m : Mapping) (after : Held) : Type 0 where
  pub udp_granted : map_port a.to_udp udp (suggestion held.current) lifetime_secs ≡ ok m
  pub not_restarted : gateway_restarted held.epoch m.epoch ≡ false
  pub tcp_mapping : Mapping
  pub tcp_granted : map_port a.to_tcp tcp m.external lifetime_secs ≡ ok tcp_mapping
  pub port_kept : after.current ≡ some m.external
  pub epoch_kept : after.epoch ≡ some m.epoch

Renewed-confirm :
    (held : Held) (m k : Mapping) (r : Result Mapping)
    → (confirm held m r).0 ≡ ok k
    → (t : Mapping) × (r ≡ ok t)
      × (k ≡ m)
      × ((confirm held m r).1 ≡ record held { current = some m.external })
unfolding confirm
Renewed-confirm held m k (err e) h = cc
Renewed-confirm held m k (ok t) h = (t, refl, ground arith, refl)

pub renew-Renewed :
    (a : Answers) (held : Held) (m : Mapping)
    → (renew a held).0 ≡ ok m
    → Renewed a held m (renew a held).1
unfolding renew follow
renew-Renewed a held m h = go (map_port a.to_udp udp (suggestion held.current) lifetime_secs) refl h
  where
    go :
        (r : Result Mapping)
        → map_port a.to_udp udp (suggestion held.current) lifetime_secs ≡ r
        → (follow a held r).0 ≡ ok m
        → Renewed a held m (follow a held r).1
    go (err e) run h = cc
    go (ok k) run h = elim (Bool-cases (gateway_restarted held.epoch k.epoch)) [
      | inl again ↦ cc (rw again at h)
      | inr steady ↦
          let next = record held { epoch = some k.epoch } in
          let (t, tcp_run, same, after) =
            Renewed-confirm next k m (map_port a.to_tcp tcp k.external lifetime_secs)
              (rw steady at h) in
          rw (steady, after, same)
            (record {
              udp_granted = run;
              not_restarted = steady;
              tcp_mapping = t;
              tcp_granted = tcp_run;
              port_kept = refl;
              epoch_kept = refl;
            })
    ]

-- A restarted gateway is noticed from the epoch of the first answer: the renewal fails, the
-- port that was held is forgotten, and the new epoch is kept for the next pass.
pub renew_restarted :
    (a : Answers) (held : Held) (m : Mapping) (p : ℕ)
    → map_port a.to_udp udp (suggestion held.current) lifetime_secs ≡ ok m
    → held.epoch ≡ some p
    → m.epoch < p
    → renew a held ≡ (err restarted, record { current = none; epoch = some m.epoch })
unfolding renew follow gateway_restarted
renew_restarted a held m p granted known older = rw (granted, known, follow) (ground arith)

-- A renewal comes no sooner than the floor and, where half the grant is above the floor, at
-- half of what was granted: before the lease runs out.
pub renew_after_bounds :
    (granted : ℕ)
    → (min_renew ≤ renew_after granted) × (min_renew < granted → renew_after granted < granted)
unfolding renew_after
renew_after_bounds granted = (omega arith, λ h. omega arith)
