-- ===== src/Portmap/Message/Laws.antt =====
-- What src/portmap.rs sends, and what it accepts.
use tunnel_rs.Base.Bytes.{byte, u16_at}
use tunnel_rs.Base.{ℕ, ◌^◌, ◌<◌, ◌≤◌, ◌≡◌, ◌≢◌, refl, ◌↔◌, List, ◌++◌, length, nat_eq, arith}
use tunnel_rs.Portmap.Message.{
  Proto, udp, tcp, opcode, response_to, Mapping, ok, u32_at, build_request, check_header,
  parse_mapping, map_response, map_response_len, request_len,
}

-- A request is read back field by field: version 0, its opcode, two zero bytes, the internal
-- port, the suggested port and the lifetime, in 12 bytes.
pub build_request-fields :
    (op internal suggested lifetime : ℕ)
    → internal < 65536
    → suggested < 65536
    → lifetime < 2 ^ 32
    → let q = build_request op internal suggested lifetime in
      (length q ≡ request_len)
      × (byte q 0 ≡ 0)
      × (byte q 1 ≡ op)
      × (u16_at q 2 ≡ 0)
      × (u16_at q 4 ≡ internal)
      × (u16_at q 6 ≡ suggested)
      × (u32_at q 8 ≡ lifetime)
unfolding build_request byte u16_at u32_at
build_request-fields op internal suggested lifetime hi hs hl =
    (refl, refl, refl, refl, omega arith, omega arith, omega arith)

-- A grant is read back whole, with whatever bytes follow the message.
pub parse_mapping-map_response :
    (proto : Proto) (external lifetime epoch : ℕ) (rest : List ℕ)
    → 0 < external
    → external < 65536
    → lifetime < 2 ^ 32
    → epoch < 2 ^ 32
    → parse_mapping (map_response (opcode proto) 0 external lifetime epoch ++ rest) proto
      ≡ ok (record { external = external; lifetime = lifetime; epoch = epoch })
unfolding parse_mapping check_header map_response byte u16_at u32_at
parse_mapping-map_response udp external lifetime epoch rest h0 h1 h2 h3 = ground arith
parse_mapping-map_response tcp external lifetime epoch rest h0 h1 h2 h3 = ground arith

-- Exactly which datagrams are accepted as a grant: those of at least 16 bytes, of version 0,
-- that answer this protocol's request, with result code 0 and a port other than 0; the grant
-- is then what stands at its offsets.
pub record Grants (buf : List ℕ) (proto : Proto) (m : Mapping) : Type 0 where
  pub long : map_response_len ≤ length buf
  pub version : byte buf 0 ≡ 0
  pub answers : byte buf 1 ≡ response_to (opcode proto)
  pub success : u16_at buf 2 ≡ 0
  pub external : m.external ≡ u16_at buf 10
  pub nonzero : m.external ≢ 0
  pub lifetime : m.lifetime ≡ u32_at buf 12
  pub epoch : m.epoch ≡ u32_at buf 4

pub parse_mapping-eq-ok_iff :
    (buf : List ℕ) (proto : Proto) (m : Mapping)
    → (parse_mapping buf proto ≡ ok m) ↔ Grants buf proto m
unfolding parse_mapping check_header
parse_mapping-eq-ok_iff buf proto m = ((λ h. ground arith), (λ g. ground arith))

-- A grant for one protocol is never accepted for the other.
pub parse_mapping_other :
    (buf : List ℕ) (m k : Mapping) → parse_mapping buf udp ≡ ok m → parse_mapping buf tcp ≢ ok k
unfolding parse_mapping check_header
parse_mapping_other buf m k h e = ground arith
