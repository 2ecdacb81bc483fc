-- ===== src/Inspect/Classify.antt =====
-- `classify` of src/inspect.rs. `above` stands for the entropy test, whose floats are not
-- modelled.
use tunnel_rs.Base.{
  ℕ, ◌%◌, ◌≡◌, ◌≢◌, refl, Bool, true, false, ◌&&◌, ◌||◌, List, [], ◌∷◌, ◌==◌, nat_eq, if◌then◌else◌,
  arith,
}
use tunnel_rs.Base.Bytes.{byte}
use tunnel_rs.Inspect.AppProto.{
  AppProto, dns, mdns, llmnr, ssdp, net_bios, http, tls, quic, wire_guard, open_vpn, shadowsocks,
  obfuscated, obfuscated_bt, bit_torrent, utp, dht, bt_tracker, ssh, ntp, dhcp, dhcpv6, igmp, icmp,
  other,
}
use tunnel_rs.Inspect.Signature.{
  is_wireguard, is_quic, is_tls, is_bittorrent, is_http_tracker, is_utp, is_dht, is_bt_tracker,
  looks_random, same_bytes,
}

pub data L4 : Type 0 where
  tcp : L4
  udp : L4
  icmp_l4 : L4
  other_l4 : ℕ → L4

unfoldable pub has : ℕ → ℕ → ℕ → Bool
has sport dport p = sport == p || dport == p

-- The signatures that are tried on UDP, then what comes after them.
unfoldable pub udp_signatures : List ℕ → AppProto → AppProto
udp_signatures p next =
    if is_wireguard p
    then wire_guard
    else (if is_quic p
        then quic
        else (if is_bt_tracker p
            then bt_tracker
            else (if is_dht p then dht else (if is_utp p then utp else next))))

unfoldable pub tcp_signatures : List ℕ → AppProto → AppProto
tcp_signatures p next =
    if is_tls p
    then tls
    else (if is_bittorrent p then bit_torrent else (if is_http_tracker p then bt_tracker else next))

-- The well-known ports; `is_udp` is `matches!(l4, L4::Udp)`.
unfoldable pub well_known : Bool → ℕ → ℕ → AppProto → AppProto
unfolding has
well_known is_udp s d next =
    if has s d 53
    then dns
    else (if has s d 5353
        then mdns
        else (if has s d 5355
            then llmnr
            else (if has s d 1900
                then ssdp
                else (if has s d 137 || has s d 138 || has s d 139
                    then net_bios
                    else (if has s d 67 || has s d 68
                        then dhcp
                        else (if has s d 546 || has s d 547
                            then dhcpv6
                            else (if has s d 123
                                then ntp
                                else (if has s d 22
                                    then ssh
                                    else (if has s d 51820 && is_udp
                                        then wire_guard
                                        else (if has s d 1194
                                            then open_vpn
                                            else (if has s d 8388 || has s d 8389
                                                then shadowsocks
                                                else (if has s d 443
                                                    then (if is_udp then quic else tls)
                                                    else (if has s d 80 || has s d 8080
                                                        then http
                                                        else next)))))))))))))

unfoldable pub classify : (above : List ℕ → ℕ → Bool) → L4 → ℕ → ℕ → List ℕ → AppProto
unfolding udp_signatures tcp_signatures well_known
classify above icmp_l4 s d p = icmp
classify above tcp s d p =
    tcp_signatures p (well_known false s d (if looks_random above p then obfuscated else other))
classify above udp s d p =
    udp_signatures p (well_known true s d (if looks_random above p then obfuscated else other))
classify above (other_l4 n) s d p = if n == 2 then igmp else well_known false s d other

tracker_first : (p : List ℕ) → is_bt_tracker p ≡ true → byte p 0 ≡ 0
unfolding is_bt_tracker same_bytes byte
tracker_first [] h = ground arith
tracker_first (x ∷ p) h = ground arith

dht_first : (p : List ℕ) → is_dht p ≡ true → byte p 0 ≡ b'd'
unfolding is_dht
dht_first p h = ground arith

utp_first : (p : List ℕ) → is_utp p ≡ true → byte p 0 % 16 ≡ 1
unfolding is_utp
utp_first p h = ground arith

off : (b : Bool) → (b ≡ true → ⊥) → b ≡ false
off true h = absurd (h refl)
off false h = refl

-- The tracker, DHT and uTP signatures never match the same payload, so their order is free.
pub signatures_disjoint :
    (p : List ℕ)
    → (is_bt_tracker p ≡ true → (is_dht p ≡ false) × (is_utp p ≡ false))
      × (is_dht p ≡ true → is_utp p ≡ false)
signatures_disjoint p = (
  λ t. (
    off (is_dht p) (λ d. omega (arith, tracker_first p t, dht_first p d)),
    off (is_utp p) (λ u. omega (arith, tracker_first p t, utp_first p u)),
  ),
  λ d. off (is_utp p) (λ u. omega (arith, dht_first p d, utp_first p u)),
)

well_known_ne :
    (u : Bool) (s d : ℕ) (next : AppProto)
    → next ≢ obfuscated_bt
    → well_known u s d next ≢ obfuscated_bt
unfolding well_known
well_known_ne u s d next h = ground arith

udp_ne :
    (p : List ℕ) (next : AppProto) → next ≢ obfuscated_bt → udp_signatures p next ≢ obfuscated_bt
unfolding udp_signatures
udp_ne p next h = ground arith

tcp_ne :
    (p : List ℕ) (next : AppProto) → next ≢ obfuscated_bt → tcp_signatures p next ≢ obfuscated_bt
unfolding tcp_signatures
tcp_ne p next h = ground arith

fallback_ne : (b : Bool) → (if b then obfuscated else other) ≢ obfuscated_bt
fallback_ne b = ground arith

-- The classifier never answers `ObfuscatedBt`: only the monitor sets it.
pub classify_ne :
    (above : List ℕ → ℕ → Bool) (l4 : L4) (s d : ℕ) (p : List ℕ)
    → classify above l4 s d p ≢ obfuscated_bt
unfolding classify
classify_ne above icmp_l4 s d p = ground arith
classify_ne above tcp s d p =
    tcp_ne p _ (well_known_ne false s d _ (fallback_ne (looks_random above p)))
classify_ne above udp s d p =
    udp_ne p _ (well_known_ne true s d _ (fallback_ne (looks_random above p)))
classify_ne above (other_l4 n) s d p = ground (arith, well_known_ne false s d other)
