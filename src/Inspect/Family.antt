-- ===== src/Inspect/Family.antt =====
-- `FlowStatus` of src/inspect.rs, and its protocol families: one bit each. A union of families
-- is written as the sum of bits that differ, and a test of bits with `/` and `%`.
use Prim.Native.String.{String}
use tunnel_rs.Base.{
  ℕ, ◌+◌, ◌/◌, ◌%◌, ◌^◌, ◌≡◌, refl, ◌⊎◌, ◌↔◌, Bool, true, ◌||◌, ◌==◌, nat_eq, arith,
}
use tunnel_rs.Inspect.AppProto.{
  AppProto, bit_torrent, utp, dht, bt_tracker, tls, quic, dns, http, ssh, wire_guard, open_vpn,
  shadowsocks, obfuscated, obfuscated_bt, mdns, llmnr, ssdp, net_bios, dhcp, dhcpv6, igmp, ntp,
  icmp, other,
}

pub data FlowStatus : Type 0 where
  active : FlowStatus
  shed : FlowStatus
  reaped : FlowStatus

abbrev pub status_label : FlowStatus → String
status_label active = ""
status_label shed = "shed"
status_label reaped = "reaped"

abbrev pub bt_peer_bit : ℕ
bt_peer_bit = 2 ^ 0

abbrev pub utp_bit : ℕ
utp_bit = 2 ^ 1

abbrev pub dht_bit : ℕ
dht_bit = 2 ^ 2

abbrev pub bt_tracker_bit : ℕ
bt_tracker_bit = 2 ^ 3

abbrev pub tls_bit : ℕ
tls_bit = 2 ^ 4

abbrev pub quic_bit : ℕ
quic_bit = 2 ^ 5

abbrev pub dns_bit : ℕ
dns_bit = 2 ^ 6

abbrev pub http_bit : ℕ
http_bit = 2 ^ 7

abbrev pub ssh_bit : ℕ
ssh_bit = 2 ^ 8

abbrev pub vpn_bit : ℕ
vpn_bit = 2 ^ 9

abbrev pub obfuscated_bit : ℕ
obfuscated_bit = 2 ^ 10

abbrev pub lan_bit : ℕ
lan_bit = 2 ^ 11

abbrev pub other_bit : ℕ
other_bit = 2 ^ 15

-- `AppProto::family`
unfoldable pub family : AppProto → ℕ
family bit_torrent = bt_peer_bit
family utp = utp_bit
family dht = dht_bit
family bt_tracker = bt_tracker_bit
family tls = tls_bit
family quic = quic_bit
family dns = dns_bit
family http = http_bit
family ssh = ssh_bit
family wire_guard = vpn_bit
family open_vpn = vpn_bit
family shadowsocks = vpn_bit
family obfuscated = obfuscated_bit
family obfuscated_bt = obfuscated_bit + bt_peer_bit
family mdns = lan_bit
family llmnr = lan_bit
family ssdp = lan_bit
family net_bios = lan_bit
family dhcp = lan_bit
family dhcpv6 = lan_bit
family igmp = lan_bit
family ntp = other_bit
family icmp = other_bit
family other = other_bit

-- `f & TORRENTING != 0`
unfoldable pub torrenting : ℕ → Bool
torrenting f = f / utp_bit % 2 == 1 || f / dht_bit % 2 == 1

-- A label marks its host as a BitTorrent client exactly if it is uTP or DHT, and the torrent
-- label of an obfuscated flow adds the peer bit alone.
pub family-torrenting :
    (app : AppProto)
    → ((torrenting (family app) ≡ true) ↔ ((app ≡ utp) ⊎ (app ≡ dht)))
      × (family obfuscated_bt ≡ family obfuscated + bt_peer_bit)
unfolding family torrenting
family-torrenting app = (ground arith, refl)
