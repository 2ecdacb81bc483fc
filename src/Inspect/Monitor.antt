-- ===== src/Inspect/Monitor.antt =====
-- `record` of src/inspect.rs once the packet is parsed: the global counters, the table of live
-- flows with its cap, and the bytes for each protocol. What the monitor knows of the remote host
-- is an input; the counters are u64 and taken as unbounded.
use tunnel_rs.Base.{
  ℕ, ◌+◌, ◌≡◌, ◌↔◌, Bool, true, false, ◌&&◌, not, Option, none, some, length, leb, nat_beq, Eq,
  ◌==◌, nat_eq, String, string_eq, if◌then◌else◌, arith,
}
use tunnel_rs.Base.Table.{Table, find, contains, insert}
use tunnel_rs.Inspect.AppProto.{AppProto, label}
use tunnel_rs.Inspect.Classify.{L4, tcp, udp, icmp_l4, other_l4}
use tunnel_rs.Inspect.Totals.{Direction, up, down, Flow, entry, record_packet}

abbrev pub max_live_flows : ℕ
max_live_flows = 8192

-- `std::net::IpAddr`, each address as the number of its bits.
pub data IpAddr : Type 0 where
  v4 v6 : ℕ → IpAddr

abbrev ip_beq : IpAddr → IpAddr → Bool
ip_beq (v4 x) (v4 y) = nat_beq x y
ip_beq (v6 x) (v6 y) = nat_beq x y
ip_beq (v4 x) (v6 y) = false
ip_beq (v6 x) (v4 y) = false

ip_beq_iff : (x y : IpAddr) → (ip_beq x y ≡ true) ↔ (x ≡ y)
ip_beq_iff x y = ground arith

pub record FlowKey : Type 0 where
  pub remote_ip : IpAddr
  pub remote_port : ℕ
  pub local_port : ℕ
  pub l4 : String

-- The derived `Eq` of the keys.
abbrev flow_key_beq : FlowKey → FlowKey → Bool
flow_key_beq x y =
    ip_beq x.remote_ip y.remote_ip
    && (nat_beq x.remote_port y.remote_port && (nat_beq x.local_port y.local_port && x.l4 == y.l4))

pub flow_key_beq_iff : (x y : FlowKey) → (flow_key_beq x y ≡ true) ↔ (x ≡ y)
flow_key_beq_iff x y =
    ground (arith, ip_beq_iff x.remote_ip y.remote_ip, string_eq.beq_iff x.l4 y.l4)

instance abbrev pub flow_key_eq : Eq FlowKey
flow_key_eq = record { beq = flow_key_beq; beq_iff = flow_key_beq_iff }

-- `L4::label`
unfoldable pub l4_label : L4 → String
l4_label tcp = "TCP"
l4_label udp = "UDP"
l4_label icmp_l4 = "ICMP"
l4_label (other_l4 n) =
    if n == 2
    then "IGMP"
    else if n == 44
    then "Frag"
    else if n == 47
    then "GRE"
    else if n == 50
    then "ESP"
    else if n == 51
    then "AH"
    else if n == 89
    then "OSPF"
    else if n == 132
    then "SCTP"
    else "IP"

pub record ParsedPacket : Type 0 where
  pub src_ip : IpAddr
  pub dst_ip : IpAddr
  pub src_port : ℕ
  pub dst_port : ℕ
  pub l4 : L4
  pub app : AppProto
  pub len : ℕ

-- The fields of `Inner` that `record` writes, the arena and the marks of own flows left out.
pub record Inner : Type 0 where
  pub total_up : ℕ
  pub total_down : ℕ
  pub acc_up : ℕ
  pub acc_down : ℕ
  pub pkts_up : ℕ
  pub pkts_down : ℕ
  pub flows : Table FlowKey Flow
  pub proto_bytes : Table String ℕ

-- The row of a packet: the remote end is the destination on the way up and the source on the
-- way down.
unfoldable pub key_of : Direction → ParsedPacket → FlowKey
key_of up p = record {
  remote_ip = p.dst_ip;
  remote_port = p.dst_port;
  local_port = p.src_port;
  l4 = l4_label p.l4;
}
key_of down p = record {
  remote_ip = p.src_ip;
  remote_port = p.src_port;
  local_port = p.dst_port;
  l4 = l4_label p.l4;
}

-- The global counters, which every packet that parses moves.
unfoldable pub tally : Direction → ℕ → Inner → Inner
tally up len i = record i {
  total_up = i.total_up + len;
  acc_up = i.acc_up + len;
  pkts_up = i.pkts_up + 1;
}
tally down len i = record i {
  total_down = i.total_down + len;
  acc_down = i.acc_down + len;
  pkts_down = i.pkts_down + 1;
}

-- No row is opened once the table is full.
unfoldable pub at_cap : FlowKey → Table FlowKey Flow → Bool
at_cap key flows = leb max_live_flows (length flows) && not (contains key flows)

-- The row that opens for a packet.
unfoldable pub or_open : AppProto → Option Flow → Flow
or_open app none = record { app = app; up_bytes = 0; down_bytes = 0; pkts = 0 }
or_open app (some f) = f

-- The flow of the row, or the one that opens it.
unfoldable pub flow_at : FlowKey → AppProto → Table FlowKey Flow → Flow
flow_at key app flows = or_open app (find key flows)

-- The flow and the bytes for each protocol, once the global counters have moved. `torrenting` is
-- what the monitor knows of the remote host.
unfoldable pub account : Bool → Direction → ParsedPacket → FlowKey → Inner → Inner
account torrenting dir p key i =
    let f = flow_at key p.app i.flows in
    let counted = record_packet dir p.len p.app torrenting f i.proto_bytes in
    if at_cap key i.flows
    then record i {
      proto_bytes = insert (label p.app) (entry (label p.app) i.proto_bytes + p.len) i.proto_bytes;
    }
    else record i { flows = insert key counted.0 i.flows; proto_bytes = counted.1 }

-- `record` of a packet that parses.
unfoldable pub record_parsed : Bool → Direction → ParsedPacket → Inner → Inner
record_parsed torrenting dir p i = account torrenting dir p (key_of dir p) (tally dir p.len i)
