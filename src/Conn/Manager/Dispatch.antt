-- ===== src/Conn/Manager/Dispatch.antt =====
-- What the packets and the passes of `dispatch` in src/conn.rs keep: no flow outlives its
-- deadline.
use tunnel_rs.Base.Table.{
  Table, find, contains, remove, Distinct, insert-Distinct, remove-Distinct, length-insert_found,
  find-insert, find-remove,
}
use tunnel_rs.Base.{
  ℕ, zero, suc, ◌+◌, ◌<◌, ◌≡◌, refl, inl, inr, Bool, true, false, not, ◌&&◌, ◌||◌, some, List, [],
  ◌∷◌, length, ltb, ◌==◌, nat_eq, if◌then◌else◌, arith, Bool-cases, All, Option-cases, ◌⊎◌, ◌≤◌,
  ◌∙◌, sym, ap, subst,
}
use tunnel_rs.Conn.Budget.{admits, refund-Covers}
use tunnel_rs.Conn.Flow.{flow_id_eq, Flow, FourTuple, FlowId, tcp_flow, udp_flow, tuple_eq}
use tunnel_rs.Conn.Manager.{
  TcpConn, UdpConn, ConnManager, udp_idle, admit_udp, on_packet, due, expire, service_tcp,
  service_udp, service, dispatch,
}
use mathlib.Core.Option.{some-injective}
use tunnel_rs.Conn.Manager.Valid.{IsValid, length-remove_found}
use tunnel_rs.Conn.Manager.Expiry.{NoneDue, overdue, expire_total}
use tunnel_rs.Conn.Manager.Rearm.{due_udp-IsArmed}
use tunnel_rs.Conn.Manager.Heap.{filed, filed-later}
use tunnel_rs.Conn.Manager.Deadlines.{
  IsArmed, open_tcp-IsArmed, open_udp-IsArmed, later-IsArmed, reap_tcp-IsArmed,
}

admit_udp-IsArmed :
    (clock now : ℕ) (m : ConnManager) (flow : Flow) (bound : Bool)
    → IsArmed clock m
    → clock ≤ now
    → IsArmed now (admit_udp m flow bound now)
unfolding admit_udp
admit_udp-IsArmed clock now m flow bound a later =
    let key : FourTuple = record { src = flow.src; dst = flow.dst } in
    let old = later-IsArmed clock now m later a in
    elim (Bool-cases (flow.proto == 17 && not (contains key m.udp))) [
      | inr other ↦ rw (other, admit_udp) old
      | inl fits ↦ elim (Bool-cases (admits m.udp_budget (length m.udp) && bound)) [
        | inr no_room ↦ rw (fits, admit_udp, no_room) old
        | inl room ↦ rw (fits, admit_udp, room) (open_udp-IsArmed clock now m key a later)
      ]
    ]

-- Every packet leaves each half-open flow and each UDP flow with its entry in the heap.
pub on_packet-IsArmed :
    (clock now : ℕ) (m : ConnManager) (flow : Flow) (bound : Bool)
    → IsArmed clock m
    → clock ≤ now
    → IsArmed now (on_packet m flow bound now)
unfolding on_packet
on_packet-IsArmed clock now m flow bound a later =
    let key : FourTuple = record { src = flow.src; dst = flow.dst } in
    let old = later-IsArmed clock now m later a in
    elim (Bool-cases (flow.proto == 6 && flow.syn && not (contains key m.tcp))) [
      | inr other ↦ rw (other, on_packet) (admit_udp-IsArmed clock now m flow bound a later)
      | inl fits ↦ elim (Bool-cases (admits m.tcp_budget (length m.tcp) && bound)) [
        | inr no_room ↦ rw (fits, on_packet, no_room) old
        | inl room ↦ rw (fits, on_packet, room) (open_tcp-IsArmed clock now m key a later)
      ]
    ]

due-IsArmed :
    (clock at : ℕ) (m : ConnManager) (id : FlowId) (h : List (ℕ × FlowId)) (now : ℕ)
    → IsArmed clock m
    → m.deadlines ≡ (at, id) ∷ h
    → IsArmed clock (due (record m { deadlines = h }) at id now)
unfolding due
due-IsArmed clock at m (tcp_flow key) h now a e = reap_tcp-IsArmed clock at m key h a e
due-IsArmed clock at m (udp_flow key) h now a e = due_udp-IsArmed clock at m key h now a e

expire-IsArmed :
    (fuel clock : ℕ) (m after : ConnManager) (now : ℕ)
    → IsArmed clock m
    → expire fuel m now ≡ some after
    → IsArmed clock after
unfolding expire
expire-IsArmed zero clock m after now a run = cc
expire-IsArmed (suc fuel) clock m after now a run =
    go m.deadlines refl run (λ k. expire-IsArmed fuel clock k after now)
  where
    go :
        (h : List (ℕ × FlowId))
        → m.deadlines ≡ h
        → elim h [
          | [] ↦ some m
          | (at, id) ∷ h ↦
              let rest = expire fuel (due (record m { deadlines = h }) at id now) now in
              if ltb now at then some m else rest
        ]
          ≡ some after
        → ((k : ConnManager)
            → IsArmed clock k
            → expire fuel k now ≡ some after
            → IsArmed clock after)
        → IsArmed clock after
    go [] e run again = subst (IsArmed clock) (some-injective _ _ run) a
    go ((at, id) ∷ h) e run again = elim (Bool-cases (ltb now at)) [
      | inl later ↦ subst (IsArmed clock) (some-injective _ _ (rw later at run)) a
      | inr is_due ↦
          again (due (record m { deadlines = h }) at id now) (due-IsArmed clock at m id h now a e)
            (rw is_due at run)
    ]

-- No flow has outlived its deadline: each flow of TCP is established or still in its window, and
-- each flow of UDP was used within its idle time.
pub record IsCurrent (now : ℕ) (m : ConnManager) : Type 0 where
  pub in_window :
      All (λ (e : FourTuple × TcpConn). (e.1.established ≡ true) ⊎ (now < e.1.deadline)) m.tcp
  pub in_use : All (λ (e : FourTuple × UdpConn). now < e.1.last + udp_idle) m.udp

-- What holds of every entry that is found holds of every entry.
All-find {κ} :
    {Val : Type 0} (P : FourTuple × Val → Type κ) (m : Table FourTuple Val)
    → Distinct m
    → ((k : FourTuple) (v : Val) → find k m ≡ some v → P (k, v))
    → All P m
unfolding find
All-find P [] d h = tt
All-find {Val = Val} P ((j, w) ∷ m) d h =
    let own : (j == j) ≡ true = (tuple_eq.beq_iff j j).1 refl in
    (h j w (rw own refl), All-find P m d.1 (λ k v there. h k v (behind k v there)))
  where
    behind :
        (k : FourTuple) (v : Val)
        → find k m ≡ some v
        → (if j == k then some w else find k m) ≡ some v
    behind k v there = elim (Bool-cases (j == k)) [
      | inl same ↦ let e : j ≡ k = (tuple_eq.beq_iff j k).0 same in cc (d.0, e, there)
      | inr other ↦ rw other there
    ]

NoneDue-IsCurrent :
    (now : ℕ) (m : ConnManager)
    → IsValid m
    → IsArmed now m
    → NoneDue now m.deadlines
    → IsCurrent now m
NoneDue-IsCurrent now m v a d = record {
  in_window =
      All-find _ m.tcp v.distinct_tcp (λ k c there. half k c there (Bool-cases c.established));
  in_use = All-find _ m.udp v.distinct_udp λ k c there.
      let (on_file, bound, past) = a.datagrams k c there in
      let later = filed-later now c.deadline (udp_flow k) m.deadlines a.ordered d on_file in
      omega arith;
}
  where
    half :
        (k : FourTuple) (c : TcpConn)
        → find k m.tcp ≡ some c
        → (c.established ≡ true) ⊎ (c.established ≡ false)
        → (c.established ≡ true) ⊎ (now < c.deadline)
    half k c there (inl done) = inl done
    half k c there (inr begun) = inr (
        filed-later now c.deadline (tcp_flow k) m.deadlines a.ordered d
          (a.handshakes k c there begun))

-- What a pass keeps of a manager.
pub record IsSound (now : ℕ) (m : ConnManager) : Type 0 where
  pub valid : IsValid m
  pub armed : IsArmed now m
  pub current : NoneDue now m.deadlines

service_tcp-IsSound :
    (now : ℕ) (m : ConnManager) (key : FourTuple) (completed closed : Bool)
    → IsSound now m
    → IsSound now (service_tcp m key completed closed)
unfolding service_tcp
service_tcp-IsSound now m key completed closed s = elim (Option-cases (find key m.tcp)) [
  | inl gone ↦ rw (gone, service_tcp) s
  | inr (c, there) ↦ go c there closed
]
  where
    go :
        (c : TcpConn)
        → find key m.tcp ≡ some c
        → (b : Bool) → IsSound now (service_tcp m key completed b)
    go c there true =
        rw (there, service_tcp)
          (record {
            valid = record {
              distinct_tcp = remove-Distinct key m.tcp s.valid.distinct_tcp;
              distinct_udp = s.valid.distinct_udp;
              covers_tcp = refund-Covers m.tcp_budget (length (remove key m.tcp)) (
                  rw (← length-remove_found key c m.tcp s.valid.distinct_tcp there)
                    s.valid.covers_tcp);
              covers_udp = s.valid.covers_udp;
            };
            armed = record {
              ordered = s.armed.ordered;
              handshakes = λ k d found half.
                  s.armed.handshakes k d (found_before k d found (Bool-cases (key == k))) half;
              datagrams = s.armed.datagrams;
            };
            current = s.current;
          })
      where
        found_before :
            (k : FourTuple) (d : TcpConn)
            → find k (remove key m.tcp) ≡ some d
            → ((key == k) ≡ true) ⊎ ((key == k) ≡ false)
            → find k m.tcp ≡ some d
        found_before k d found (inl same) = cc (rw (find-remove key k m.tcp, same) at found)
        found_before k d found (inr other) = rw (find-remove key k m.tcp, other) at found
    go c there false =
        let next : TcpConn = record c { established = c.established || completed } in
        rw (there, service_tcp)
          (record {
            valid = record {
              distinct_tcp = insert-Distinct key next m.tcp s.valid.distinct_tcp;
              distinct_udp = s.valid.distinct_udp;
              covers_tcp =
                  rw (length-insert_found key next m.tcp (λ z. ground arith)) s.valid.covers_tcp;
              covers_udp = s.valid.covers_udp;
            };
            armed = record {
              ordered = s.armed.ordered;
              handshakes = λ k d found half. elim (Bool-cases (key == k)) [
                | inl same ↦
                    let f : next ≡ d =
                      some-injective _ _ (rw (find-insert key k next m.tcp, same) at found) in
                    let e : key ≡ k = (tuple_eq.beq_iff key k).0 same in
                    let early : c.established ≡ false = ground arith in
                    ap (λ (z : TcpConn). filed z.deadline (tcp_flow k) m.deadlines) (sym f)
                    ∙ ap (λ (z : FourTuple). filed c.deadline (tcp_flow z) m.deadlines) (sym e)
                    ∙ s.armed.handshakes key c there early
                | inr other ↦
                    s.armed.handshakes k d (rw (find-insert key k next m.tcp, other) at found) half
              ];
              datagrams = s.armed.datagrams;
            };
            current = s.current;
          })

service_udp-IsSound :
    (now : ℕ) (m : ConnManager) (key : FourTuple) (used : Bool)
    → IsSound now m
    → IsSound now (service_udp m key now used)
unfolding service_udp
service_udp-IsSound now m key false s = elim (Option-cases (find key m.udp)) [
  | inl gone ↦ rw (gone, service_udp) s
  | inr (c, there) ↦ rw (there, service_udp) s
]
service_udp-IsSound now m key true s = elim (Option-cases (find key m.udp)) [
  | inl gone ↦ rw (gone, service_udp) s
  | inr (c, there) ↦
      let next : UdpConn = record c { last = now } in
      let (on_file, bound, past) = s.armed.datagrams key c there in
      rw (there, service_udp)
        (record {
          valid = record {
            distinct_tcp = s.valid.distinct_tcp;
            distinct_udp = insert-Distinct key next m.udp s.valid.distinct_udp;
            covers_tcp = s.valid.covers_tcp;
            covers_udp =
                rw (length-insert_found key next m.udp (λ z. ground arith)) s.valid.covers_udp;
          };
          armed = record {
            ordered = s.armed.ordered;
            handshakes = s.armed.handshakes;
            datagrams = λ k d found. elim (Bool-cases (key == k)) [
              | inl same ↦
                  let f : next ≡ d =
                    some-injective _ _ (rw (find-insert key k next m.udp, same) at found) in
                  let e : key ≡ k = (tuple_eq.beq_iff key k).0 same in
                  subst
                    (λ (z : UdpConn).
                      (filed z.deadline (udp_flow k) m.deadlines ≡ true)
                      × (z.deadline ≤ z.last + udp_idle)
                      × (z.last ≤ now))
                    f
                    (
                      ap (λ (z : FourTuple). filed c.deadline (udp_flow z) m.deadlines) (sym e)
                          ∙ on_file,
                      omega arith,
                      omega arith,
                    )
              | inr other ↦
                  s.armed.datagrams k d (rw (find-insert key k next m.udp, other) at found)
            ];
          };
          current = s.current;
        })
]

service-IsSound :
    (completed closed used : FourTuple → Bool) (ids : List FlowId) (m : ConnManager) (now : ℕ)
    → IsSound now m
    → IsSound now (service completed closed used ids m now)
unfolding service
service-IsSound completed closed used [] m now s = s
service-IsSound completed closed used (tcp_flow key ∷ ids) m now s =
    service-IsSound completed closed used ids (service_tcp m key (completed key) (closed key)) now
      (service_tcp-IsSound now m key (completed key) (closed key) s)
service-IsSound completed closed used (udp_flow key ∷ ids) m now s =
    service-IsSound completed closed used ids (service_udp m key now (used key)) now
      (service_udp-IsSound now m key (used key) s)

-- In a well-formed manager whose flows are filed at their deadlines, a pass at a time that is not
-- before those deadlines were filed ends, with one round more than there are due entries,
-- whatever its flows' sockets have come to. It leaves a well-formed manager in which each TCP
-- flow is established or still inside its handshake window and each UDP flow was used within its
-- idle time; each TCP flow still in its handshake and each UDP flow has its entry in the heap.
pub dispatch-IsCurrent :
    (completed closed used : FourTuple → Bool) (fuel : ℕ) (ids : List FlowId) (m : ConnManager)
    (clock now : ℕ)
    → IsValid m
    → IsArmed clock m
    → clock ≤ now
    → overdue now m.deadlines < fuel
    → (after : ConnManager) × (dispatch completed closed used fuel ids m now ≡ some after)
      × IsValid after
      × IsArmed now after
      × IsCurrent now after
unfolding dispatch
dispatch-IsCurrent completed closed used fuel ids m clock now v a later enough =
    let (swept, run, valid, current) = expire_total fuel m now v enough in
    let sound : IsSound now swept = record {
      valid = valid;
      armed = later-IsArmed clock now swept later (expire-IsArmed fuel clock m swept now a run);
      current = current;
    } in
    let end = service-IsSound completed closed used ids swept now sound in
    (
      service completed closed used ids swept now,
      rw run refl,
      end.valid,
      end.armed,
      NoneDue-IsCurrent now (service completed closed used ids swept now) end.valid end.armed
          end.current,
    )
