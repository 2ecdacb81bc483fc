-- ===== src/Tests/Inspect.antt =====
-- The classifier of src/inspect.rs at concrete inputs.
use tunnel_rs.Base.{
  ℕ, ◌≡◌, ◌+◌, ◌&&◌, ◌==◌, not, leb, length, string_eq, nat_eq, if◌then◌else◌, refl, Bool, false,
  String, List, [], ◌∷◌, arith, codes,
}
use tunnel_rs.Base.Table.{find, contains, insert}
use tunnel_rs.Inspect.AppProto.{label, tls, obfuscated, bit_torrent, bt_tracker}
use tunnel_rs.Inspect.Classify.{classify, tcp, tcp_signatures, well_known, has}
use tunnel_rs.Inspect.Signature.{
  is_tls, is_bittorrent, is_http_tracker, starts_with, before, upto, last_part, verb_of, same_bytes,
  tracker_path,
}
use tunnel_rs.Inspect.Sticky
use tunnel_rs.Inspect.Accounts
use tunnel_rs.Inspect.Accounts.{Accounted}
use tunnel_rs.Inspect.Monitor.{
  FlowKey, flow_key_eq, v4, ParsedPacket, Inner, key_of, l4_label, tally, at_cap, flow_at, or_open,
  account, record_parsed,
}
use tunnel_rs.Inspect.Totals.{
  up, Flow, entry, record_packet, upgrade, mark_torrent, count, add, relabel, is_obfuscated,
}

-- No payload is random.
abbrev never : List ℕ → ℕ → Bool
never p bar = false

tracker_request : List ℕ
tracker_request = codes "GET /x/announce.php?info_hash=1 HTTP/1.1"

tracker_seen : classify never tcp 50000 6969 tracker_request ≡ bt_tracker
unfolding tracker_request classify tcp_signatures is_tls is_bittorrent is_http_tracker starts_with
    before upto last_part verb_of same_bytes tracker_path
tracker_seen = refl

abbrev tracker_hello : List ℕ
tracker_hello = 0 ∷ 0 ∷ 4 ∷ 23 ∷ 39 ∷ 16 ∷ 25 ∷ 128 ∷ 0 ∷ 0 ∷ 0 ∷ 0 ∷ 1 ∷ 2 ∷ 3 ∷ 4 ∷ []

-- A flow of ten bytes that looked random, its row and its total, with 20 bytes more under the
-- label that have no row.
abbrev flow : Flow
flow = record { app = obfuscated; up_bytes = 7; down_bytes = 3; pkts = 2 }

abbrev peer : FlowKey
peer = record { remote_ip = v4 9; remote_port = 6881; local_port = 50000; l4 = "TCP" }

abbrev monitor : Inner
monitor = record {
  total_up = 27;
  total_down = 3;
  acc_up = 0;
  acc_down = 0;
  pkts_up = 4;
  pkts_down = 1;
  flows = (peer, flow) ∷ [];
  proto_bytes = ("Obfuscated", 30) ∷ [];
}

abbrev rowless : String → ℕ
rowless k = if "Obfuscated" == k then 20 else 0

monitor-Accounted : Accounted monitor rowless
unfolding entry find
monitor-Accounted k = ground arith

-- A handshake of the flow: it takes its ten bytes to the new label.
abbrev handshake : ParsedPacket
handshake = record {
  src_ip = v4 1;
  dst_ip = v4 9;
  src_port = 50000;
  dst_port = 6881;
  l4 = tcp;
  app = bit_torrent;
  len = 5;
}

record_parsed-Accounted_example : Accounted (record_parsed false up handshake monitor) (λ k.
    if leb 8192 (length monitor.flows)
      && not (contains (key_of up handshake) monitor.flows)
      && label bit_torrent == k
    then rowless k + 5
    else rowless k)
record_parsed-Accounted_example =
    Accounts.record_parsed-Accounted false up handshake monitor rowless monitor-Accounted

relabelled :
    (record_parsed false up handshake monitor).proto_bytes
    ≡ ("Obfuscated", 20) ∷ ("BitTorrent", 15) ∷ []
unfolding record_parsed tally account at_cap flow_at or_open key_of l4_label record_packet upgrade
    mark_torrent count add relabel is_obfuscated entry find contains insert
relabelled = refl

abbrev web : Flow
web = record { app = tls; up_bytes = 0; down_bytes = 0; pkts = 0 }

web_label : tls ≡ classify never tcp 50000 443 []
unfolding classify tcp_signatures well_known has is_tls is_bittorrent is_http_tracker starts_with
web_label = refl

port_label_sticks_example : (record_packet up 60 bit_torrent false web []).0.app ≡ tls
port_label_sticks_example =
    Sticky.port_label_sticks never 50000 up 60 bit_torrent false web [] (omega arith) web_label
