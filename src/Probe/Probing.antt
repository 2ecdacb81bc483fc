-- ===== src/Probe/Probing.antt =====
-- One port of a scan in src/probe.rs: `probe_port`, `banner_text` and `connect_state`, with
-- `service_name` of src/inspect.rs. What the network answers is an input.
use tunnel_rs.Base.{
  ℕ, suc, ◌+◌, ◌-◌, ◌≤◌, ◌≡◌, refl, inl, inr, Bool, ◌&&◌, ◌||◌, not, Option, none, some, List, [],
  ◌∷◌, length, take, drop, leb, ◌==◌, nat_eq, if◌then◌else◌, codes, arith, All, All-take, All-drop,
  Option-cases, ◌>>=◌,
}
use mathlib.Core.Option.{some-injective}
use tunnel_rs.Probe.Name.Bounds.{IsByte}
use tunnel_rs.Probe.Render.Clean.{Clean, push_escaped-Clean, clamp_to_lem}
use tunnel_rs.Probe.Text.{Text, push_escaped, clamp_to}

abbrev pub banner_chars : ℕ
banner_chars = 120

pub data PortState : Type 0 where
  open_port : PortState
  closed : PortState
  filtered : PortState

pub record PortResult : Type 0 where
  pub port : ℕ
  pub service : Text
  pub banner : Option Text

-- How a connection went: what was read of the greeting, or why there is none.
pub data Connect : Type 0 where
  connected : Option (List ℕ) → Connect
  refused : Connect
  failed : Connect

unfoldable pub service_name : ℕ → Text
service_name p =
    (if p == 20 || p == 21
      then codes "ftp"
      else (if p == 22
          then codes "ssh"
          else (if p == 23
              then codes "telnet"
              else (if p == 25 || p == 587
                  then codes "smtp"
                  else (if p == 53
                      then codes "dns"
                      else (if p == 67 || p == 68
                          then codes "dhcp"
                          else (if p == 80
                              then codes "http"
                              else (if p == 110
                                  then codes "pop3"
                                  else (if p == 123
                                      then codes "ntp"
                                      else (if leb 137 p && leb p 139
                                          then codes "netbios"
                                          else (if p == 143
                                              then codes "imap"
                                              else (if p == 161 || p == 162
                                                  then codes "snmp"
                                                  else (if p == 389
                                                      then codes "ldap"
                                                      else (if p == 443
                                                          then codes "https"
                                                          else (if p == 445
                                                            then codes "smb"
                                                            else (if p == 465
                                                            then codes "smtps"
                                                            else (if p == 546 || p == 547
                                                            then codes "dhcpv6"
                                                            else (if p == 636
                                                            then codes "ldaps"
                                                            else (if p == 853
                                                            then codes "dns-tls"
                                                            else (if p == 993
                                                            then codes "imaps"
                                                            else (if p == 995
                                                            then codes "pop3s"
                                                            else (if p == 1194
                                                            then codes "openvpn"
                                                            else (if p == 1900
                                                            then codes "ssdp"
                                                            else (if p == 3128 || p == 8080
                                                            then codes "http-proxy"
                                                            else (if p == 3306
                                                            then codes "mysql"
                                                            else (if p == 3389
                                                            then codes "rdp"
                                                            else (if p == 5222
                                                            then codes "xmpp"
                                                            else (if p == 5353
                                                            then codes "mdns"
                                                            else (if p == 5355
                                                            then codes "llmnr"
                                                            else (if p == 5432
                                                            then codes "postgres"
                                                            else (if p == 6379
                                                            then codes "redis"
                                                            else (if p == 8388 || p == 8389
                                                            then codes "shadowsocks"
                                                            else (if p == 8443
                                                            then codes "https-alt"
                                                            else (if p == 27017
                                                            then codes "mongodb"
                                                            else (if p == 51820
                                                            then codes "wireguard"
                                                            else [])))))))))))))))))))))))))))))))))))

-- `u8::is_ascii_whitespace`
abbrev pub is_ascii_whitespace : ℕ → Bool
is_ascii_whitespace b = b == 9 || b == 10 || b == 12 || b == 13 || b == 32

unfoldable pub position : (ℕ → Bool) → List ℕ → Option ℕ
position f [] = none
position f (b ∷ bs) = let rest = position f bs in if f b then some 0 else rest >>= λ i. some (suc i)

-- The place of the last byte that passes the test.
unfoldable pub rposition : (ℕ → Bool) → List ℕ → Option ℕ
rposition f [] = none
rposition f (b ∷ bs) = elim (rposition f bs) [
  | some i ↦ some (suc i)
  | none ↦ if f b then some 0 else none
]

-- `bytes[start..=end]`, escaped and cut.
unfoldable pub banner_text : List ℕ → Option Text
unfolding position rposition push_escaped clamp_to
banner_text bytes = position (λ b. not (is_ascii_whitespace b)) bytes >>= λ start.
    rposition (λ b. not (is_ascii_whitespace b)) bytes >>= λ end.
    some (clamp_to (push_escaped [] (take (end + 1 - start) (drop start bytes))) banner_chars)

-- The kind of a failed connection.
unfoldable pub connect_state : Connect → PortState
connect_state refused = closed
connect_state other = filtered

-- `Ok(n) if n > 0`
unfoldable pub greeting_banner : Option (List ℕ) → Option Text
unfolding banner_text
greeting_banner none = none
greeting_banner (some []) = none
greeting_banner (some (b ∷ bs)) = banner_text (b ∷ bs)

unfoldable pub probe_port : ℕ → Connect → PortState × Option PortResult
unfolding greeting_banner connect_state service_name
probe_port p (connected greeting) = (
  open_port,
  some (record { port = p; service = service_name p; banner = greeting_banner greeting }),
)
probe_port p other = (connect_state other, none)

-- A greeting is displayable and short, whatever a service sends.
pub banner_text_lem :
    (bytes : List ℕ) (t : Text)
    → All IsByte bytes
    → banner_text bytes ≡ some t
    → Clean t × (length t ≤ banner_chars)
unfolding banner_text
banner_text_lem bytes t own h =
    elim (Option-cases (position (λ b. not (is_ascii_whitespace b)) bytes)) [
      | inl blank ↦ cc (rw blank at h)
      | inr (start, first) ↦
          elim (Option-cases (rposition (λ b. not (is_ascii_whitespace b)) bytes)) [
            | inl blank ↦ cc (rw (first, blank) at h)
            | inr (end, last) ↦
                let kept : List ℕ = take (end + 1 - start) (drop start bytes) in
                let kept_bytes =
                  All-take IsByte (end + 1 - start) (drop start bytes)
                    (All-drop IsByte start bytes own) in
                let shown =
                  clamp_to_lem (push_escaped [] kept) banner_chars (omega arith)
                    (push_escaped-Clean [] kept refl kept_bytes) in
                let same : clamp_to (push_escaped [] kept) banner_chars ≡ t =
                  some-injective _ _ (rw (first, last) at h) in
                rw (← same) shown
          ]
    ]
