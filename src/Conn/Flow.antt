-- ===== src/Conn/Flow.antt =====
-- `parse_flow` of src/conn.rs: the flow that a packet belongs to.
use tunnel_rs.Base.Bytes.{byte, u16_at}
use tunnel_rs.Base.{
  ℕ, ◌+◌, ◌-◌, ◌*◌, ◌/◌, ◌%◌, ◌≤◌, ◌≡◌, ◌↔◌, ◌⊎◌, Bool, true, false, not, ◌&&◌, ◌||◌, Option, none,
  some, List, length, ltb, nat_beq, Eq, ◌==◌, nat_eq, if◌then◌else◌, arith,
}
use tunnel_rs.Wg.Address.{Ipv4Addr, addr_beq, addr_beq_iff}
use tunnel_rs.Wg.Packet.{addr_at}

-- `SocketAddrV4`
pub record Endpoint : Type 0 where
  pub ip : Ipv4Addr
  pub port : ℕ

pub record Flow : Type 0 where
  pub proto : ℕ
  pub src : Endpoint
  pub dst : Endpoint
  pub syn : Bool

pub record FourTuple : Type 0 where
  pub src : Endpoint
  pub dst : Endpoint

pub data FlowId : Type 0 where
  tcp_flow udp_flow : FourTuple → FlowId

abbrev pub endpoint_beq : Endpoint → Endpoint → Bool
endpoint_beq x y = addr_beq x.ip y.ip && nat_beq x.port y.port

abbrev pub tuple_beq : FourTuple → FourTuple → Bool
tuple_beq x y = endpoint_beq x.src y.src && endpoint_beq x.dst y.dst

pub tuple_beq_iff : (x y : FourTuple) → (tuple_beq x y ≡ true) ↔ (x ≡ y)
tuple_beq_iff x y = ground (arith, addr_beq_iff x.src.ip y.src.ip, addr_beq_iff x.dst.ip y.dst.ip)

instance abbrev pub tuple_eq : Eq FourTuple
tuple_eq = record { beq = tuple_beq; beq_iff = tuple_beq_iff }

abbrev pub flow_id_beq : FlowId → FlowId → Bool
flow_id_beq (tcp_flow x) (tcp_flow y) = tuple_beq x y
flow_id_beq (udp_flow x) (udp_flow y) = tuple_beq x y
flow_id_beq (tcp_flow x) (udp_flow y) = false
flow_id_beq (udp_flow x) (tcp_flow y) = false

pub flow_id_beq_iff : (x y : FlowId) → (flow_id_beq x y ≡ true) ↔ (x ≡ y)
flow_id_beq_iff (tcp_flow x) (tcp_flow y) = ground (arith, tuple_beq_iff x y)
flow_id_beq_iff (udp_flow x) (udp_flow y) = ground (arith, tuple_beq_iff x y)
flow_id_beq_iff (tcp_flow x) (udp_flow y) = ground arith
flow_id_beq_iff (udp_flow x) (tcp_flow y) = ground arith

instance abbrev pub flow_id_eq : Eq FlowId
flow_id_eq = record { beq = flow_id_beq; beq_iff = flow_id_beq_iff }

-- SYN set and ACK clear.
abbrev pub is_bare_syn : ℕ → Bool
is_bare_syn flags = flags / 2 % 2 == 1 && flags / 16 % 2 == 0

unfoldable pub flow_at : List ℕ → ℕ → Bool → Flow
flow_at pkt ihl syn = record {
  proto = byte pkt 9;
  src = record { ip = addr_at pkt 12; port = u16_at pkt ihl };
  dst = record { ip = addr_at pkt 16; port = u16_at pkt (ihl + 2) };
  syn = syn;
}

-- The match on the protocol, behind the checks of the header.
unfoldable pub parse_l4 : List ℕ → ℕ → Option Flow
parse_l4 pkt ihl =
    if byte pkt 9 == 6
    then (if ltb (length pkt - ihl) 20
        then none
        else some (flow_at pkt ihl (is_bare_syn (byte pkt (ihl + 13)))))
    else (if byte pkt 9 == 17
        then (if ltb (length pkt - ihl) 8 then none else some (flow_at pkt ihl false))
        else none)

unfoldable pub parse_flow : List ℕ → Option Flow
parse_flow pkt =
    let ihl = byte pkt 0 % 16 * 4 in
    if ltb (length pkt) 20 || not (byte pkt 0 / 16 == 4)
    then none
    else (if ltb ihl 20 || ltb (length pkt) ihl then none else parse_l4 pkt ihl)

-- What an accepted packet is: IPv4 with a whole header, TCP with its 20 bytes or UDP with its
-- 8, all inside the packet; only a TCP packet opens a connection.
pub parse_flow-inv :
    (pkt : List ℕ) (f : Flow)
    → parse_flow pkt ≡ some f
    → (byte pkt 0 / 16 ≡ 4)
      × (20 ≤ byte pkt 0 % 16 * 4)
      × (byte pkt 0 % 16 * 4 + 8 ≤ length pkt)
      × ((f.proto ≡ 6) ⊎ (f.proto ≡ 17))
      × (f.proto ≡ 17 → f.syn ≡ false)
      × (f.src.ip ≡ addr_at pkt 12)
      × (f.dst.ip ≡ addr_at pkt 16)
      × (f.src.port ≡ u16_at pkt (byte pkt 0 % 16 * 4))
      × (f.dst.port ≡ u16_at pkt (byte pkt 0 % 16 * 4 + 2))
unfolding parse_flow parse_l4 flow_at
parse_flow-inv pkt f e = ground arith
