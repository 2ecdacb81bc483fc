-- ===== src/Inspect/AppProto.antt =====
-- `AppProto` and `FlowStatus` of src/inspect.rs: the labels, their confidence tiers, and the
-- upgrade of a flow's label in `record`.
use tunnel_rs.Base.{ℕ, String}

pub data AppProto : Type 0 where
  dns : AppProto
  mdns : AppProto
  llmnr : AppProto
  ssdp : AppProto
  net_bios : AppProto
  http : AppProto
  tls : AppProto
  quic : AppProto
  wire_guard : AppProto
  open_vpn : AppProto
  shadowsocks : AppProto
  obfuscated : AppProto
  obfuscated_bt : AppProto
  bit_torrent : AppProto
  utp : AppProto
  dht : AppProto
  bt_tracker : AppProto
  ssh : AppProto
  ntp : AppProto
  dhcp : AppProto
  dhcpv6 : AppProto
  igmp : AppProto
  icmp : AppProto
  other : AppProto

-- `AppProto::rank`
abbrev pub rank : AppProto → ℕ
rank other = 0
rank obfuscated = 1
rank obfuscated_bt = 1
rank dns = 2
rank mdns = 2
rank llmnr = 2
rank ssdp = 2
rank net_bios = 2
rank http = 2
rank ssh = 2
rank ntp = 2
rank dhcp = 2
rank dhcpv6 = 2
rank open_vpn = 2
rank shadowsocks = 2
rank igmp = 2
rank icmp = 2
rank tls = 3
rank quic = 3
rank wire_guard = 3
rank bit_torrent = 3
rank utp = 3
rank dht = 3
rank bt_tracker = 3

-- `AppProto::label`
abbrev pub label : AppProto → String
label dns = "DNS"
label mdns = "mDNS"
label llmnr = "LLMNR"
label ssdp = "SSDP"
label net_bios = "NetBIOS"
label http = "HTTP"
label tls = "TLS"
label quic = "QUIC"
label wire_guard = "WireGuard"
label open_vpn = "OpenVPN"
label shadowsocks = "Shadowsocks"
label obfuscated = "Obfuscated"
label obfuscated_bt = "Obfuscated (uTP/DHT)"
label bit_torrent = "BitTorrent"
label utp = "uTP"
label dht = "DHT"
label bt_tracker = "BT Tracker"
label ssh = "SSH"
label ntp = "NTP"
label dhcp = "DHCP"
label dhcpv6 = "DHCPv6"
label igmp = "IGMP"
label icmp = "ICMP"
label other = "Other"
