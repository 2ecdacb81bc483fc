-- ===== src/Conn/Manager/Valid.antt =====
-- The flow tables of src/conn.rs stay well formed: the budgets are what the live flows cost.
use tunnel_rs.Base.Table.{
  Table, find, contains, insert, remove, Distinct, insert-Distinct, remove-Distinct,
  length-insert_found,
}
use tunnel_rs.Base.{
  ℕ, suc, ◌+◌, ◌-◌, ◌≡◌, refl, inl, inr, Bool, true, false, not, ◌&&◌, ◌||◌, none, some, [], ◌∷◌,
  length, ltb, ◌==◌, nat_eq, arith, Bool-cases, Option-cases,
}
use tunnel_rs.Conn.Budget.{admits, Covers, charge-Covers, refund-Covers}
use tunnel_rs.Conn.Flow.{Flow, FourTuple, FlowId, tcp_flow, udp_flow, tuple_eq}
use tunnel_rs.Conn.Manager.{
  TcpConn, UdpConn, ConnManager, handshake_timeout, udp_idle, open_tcp, open_udp, admit_udp,
  on_packet, reap_tcp, due_udp, due,
}

-- The tables have no repeated keys, and each budget is the exact cost of its live flows, under
-- its ceilings.
pub record IsValid (m : ConnManager) : Type 0 where
  pub distinct_tcp : Distinct m.tcp
  pub distinct_udp : Distinct m.udp
  pub covers_tcp : Covers m.tcp_budget (length m.tcp)
  pub covers_udp : Covers m.udp_budget (length m.udp)

length-insert_new :
    {V : Type 0} (k : FourTuple) (v : V) (m : Table FourTuple V)
    → contains k m ≡ false
    → length (insert k v m) ≡ suc (length m)
unfolding insert contains
length-insert_new k v [] h = refl
length-insert_new k v ((i, w) ∷ m) h = ground (arith, length-insert_new k v m)

remove-absent :
    {V : Type 0} (k : FourTuple) (m : Table FourTuple V)
    → find k m ≡ none
    → length (remove k m) ≡ length m
unfolding remove find
remove-absent k [] h = refl
remove-absent k ((i, w) ∷ m) h = ground (arith, remove-absent k m)

pub length-remove_found :
    {V : Type 0} (k : FourTuple) (v : V) (m : Table FourTuple V)
    → Distinct m
    → find k m ≡ some v
    → length m ≡ suc (length (remove k m))
unfolding remove find
length-remove_found k v [] d h = cc
length-remove_found k v ((i, w) ∷ m) d h = ground (
  arith,
  tuple_eq.beq_iff i k,
  remove-absent k m,
  remove-absent i m,
  length-remove_found k v m d.1,
)

open_tcp-IsValid :
    (m : ConnManager) (key : FourTuple) (now : ℕ)
    → contains key m.tcp ≡ false
    → admits m.tcp_budget (length m.tcp) ≡ true
    → IsValid m
    → IsValid (open_tcp m key now)
unfolding open_tcp
open_tcp-IsValid m key now new room v =
    let c : TcpConn = record { established = false; deadline = now + handshake_timeout } in
    record {
      distinct_tcp = insert-Distinct key c m.tcp v.distinct_tcp;
      distinct_udp = v.distinct_udp;
      covers_tcp =
          rw (length-insert_new key c m.tcp new)
            (charge-Covers m.tcp_budget (length m.tcp) v.covers_tcp room);
      covers_udp = v.covers_udp;
    }

open_udp-IsValid :
    (m : ConnManager) (key : FourTuple) (now : ℕ)
    → contains key m.udp ≡ false
    → admits m.udp_budget (length m.udp) ≡ true
    → IsValid m
    → IsValid (open_udp m key now)
unfolding open_udp
open_udp-IsValid m key now new room v =
    let c : UdpConn = record { last = now; deadline = now + udp_idle } in
    record {
      distinct_tcp = v.distinct_tcp;
      distinct_udp = insert-Distinct key c m.udp v.distinct_udp;
      covers_tcp = v.covers_tcp;
      covers_udp =
          rw (length-insert_new key c m.udp new)
            (charge-Covers m.udp_budget (length m.udp) v.covers_udp room);
    }

admit_udp-IsValid :
    (m : ConnManager) (flow : Flow) (bound : Bool) (now : ℕ)
    → IsValid m
    → IsValid (admit_udp m flow bound now)
unfolding admit_udp
admit_udp-IsValid m flow bound now v =
    let key : FourTuple = record { src = flow.src; dst = flow.dst } in
    elim (Bool-cases (flow.proto == 17 && not (contains key m.udp))) [
      | inr other ↦ rw (other, admit_udp) v
      | inl fits ↦ elim (Bool-cases (admits m.udp_budget (length m.udp) && bound)) [
        | inr no_room ↦ rw (fits, admit_udp, no_room) v
        | inl room ↦
            rw (fits, admit_udp, room) (open_udp-IsValid m key now (ground arith) (ground arith) v)
      ]
    ]

-- Whatever the packet is, the tables keep no repeated keys, and each budget stays the exact
-- cost of the live flows of its protocol, under both of its ceilings.
pub on_packet-IsValid :
    (m : ConnManager) (flow : Flow) (bound : Bool) (now : ℕ)
    → IsValid m
    → IsValid (on_packet m flow bound now)
unfolding on_packet
on_packet-IsValid m flow bound now v =
    let key : FourTuple = record { src = flow.src; dst = flow.dst } in
    elim (Bool-cases (flow.proto == 6 && flow.syn && not (contains key m.tcp))) [
      | inr other ↦ rw (other, on_packet) (admit_udp-IsValid m flow bound now v)
      | inl fits ↦ elim (Bool-cases (admits m.tcp_budget (length m.tcp) && bound)) [
        | inr no_room ↦ rw (fits, on_packet, no_room) v
        | inl room ↦
            rw (fits, on_packet, room) (open_tcp-IsValid m key now (ground arith) (ground arith) v)
      ]
    ]

reap_tcp-IsValid :
    (m : ConnManager) (at : ℕ) (key : FourTuple) → IsValid m → IsValid (reap_tcp m at key)
unfolding reap_tcp
reap_tcp-IsValid m at key v = elim (Option-cases (find key m.tcp)) [
  | inl e ↦ rw (e, reap_tcp) v
  | inr (c, e) ↦ elim (Bool-cases (c.established || not (c.deadline == at))) [
    | inl keep ↦ rw (e, reap_tcp, keep) v
    | inr reap ↦
        rw (e, reap_tcp, reap)
          (record {
            distinct_tcp = remove-Distinct key m.tcp v.distinct_tcp;
            distinct_udp = v.distinct_udp;
            covers_tcp =
                refund-Covers m.tcp_budget (length (remove key m.tcp))
                  (rw (← length-remove_found key c m.tcp v.distinct_tcp e) v.covers_tcp);
            covers_udp = v.covers_udp;
          })
  ]
]

due_udp-IsValid :
    (m : ConnManager) (at : ℕ) (key : FourTuple) (now : ℕ)
    → IsValid m
    → IsValid (due_udp m at key now)
unfolding due_udp
due_udp-IsValid m at key now v = elim (Option-cases (find key m.udp)) [
  | inl e ↦ rw (e, due_udp) v
  | inr (c, e) ↦ elim (Bool-cases (not (c.deadline == at))) [
    | inl stale ↦ rw (e, due_udp, stale) v
    | inr own ↦ elim (Bool-cases (ltb (now - c.last) udp_idle)) [
      | inl live ↦
          rw (e, due_udp, own, live)
            (record {
              distinct_tcp = v.distinct_tcp;
              distinct_udp = insert-Distinct key _ m.udp v.distinct_udp;
              covers_tcp = v.covers_tcp;
              covers_udp =
                  rw
                    (length-insert_found key (record c { deadline = c.last + udp_idle }) m.udp
                      (λ z. ground arith))
                    v.covers_udp;
            })
      | inr silent ↦
          rw (e, due_udp, own, silent)
            (record {
              distinct_tcp = v.distinct_tcp;
              distinct_udp = remove-Distinct key m.udp v.distinct_udp;
              covers_tcp = v.covers_tcp;
              covers_udp =
                  refund-Covers m.udp_budget (length (remove key m.udp))
                    (rw (← length-remove_found key c m.udp v.distinct_udp e) v.covers_udp);
            })
    ]
  ]
]

pub due-IsValid :
    (m : ConnManager) (at : ℕ) (id : FlowId) (now : ℕ) → IsValid m → IsValid (due m at id now)
unfolding due
due-IsValid m at (tcp_flow key) now v = reap_tcp-IsValid m at key v
due-IsValid m at (udp_flow key) now v = due_udp-IsValid m at key now v
