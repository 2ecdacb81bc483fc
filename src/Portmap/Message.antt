-- ===== src/Portmap/Message.antt =====
-- The messages of src/portmap.rs: `build_request`, `check_header`, `parse_mapping` and
-- `parse_external_address`. The text of an error is a constructor with the values that it
-- prints; a lifetime is a number of seconds.
pub mod Laws
use tunnel_rs.Base.Bytes.{byte, u16_at}
use tunnel_rs.Base.{
  ℕ, ◌+◌, ◌*◌, ◌/◌, ◌%◌, ◌^◌, ◌<◌, ◌≤◌, Bool, true, false, not, List, [], ◌∷◌, ◌++◌, length, ltb,
  ◌==◌, nat_eq, if◌then◌else◌,
}
use tunnel_rs.Wg.Address.{Ipv4Addr}

abbrev pub op_external : ℕ
op_external = 0

abbrev pub op_map_udp : ℕ
op_map_udp = 1

abbrev pub op_map_tcp : ℕ
op_map_tcp = 2

-- `op | RESPONSE_BIT`, for the opcodes below 0x80.
abbrev pub response_to : ℕ → ℕ
response_to op = op + 0x80

abbrev pub request_len : ℕ
request_len = 12

abbrev pub map_response_len : ℕ
map_response_len = 16

abbrev pub addr_response_len : ℕ
addr_response_len = 12

pub data Proto : Type 0 where
  udp tcp : Proto

abbrev pub opcode : Proto → ℕ
opcode udp = op_map_udp
opcode tcp = op_map_tcp

pub record Mapping : Type 0 where
  pub external : ℕ
  pub lifetime : ℕ
  pub epoch : ℕ

-- Why there is no lease: an exchange or a renewal failed, or none has been tried yet.
pub data Error : Type 0 where
  short_response : ℕ → ℕ → Error
  wrong_version : ℕ → Error
  wrong_opcode : ℕ → ℕ → Error
  refused : ℕ → Error
  port_zero : Error
  not_answering : Error
  not_carrying : Error
  restarted : Error
  negotiating : Error

pub data Result {κ} (V : Type κ) : Type κ where
  err : Error → Result V
  ok : V → Result V

abbrev pub ◌>>=◌ {κ μ} : {V : Type κ} {W : Type μ} → Result V → (V → Result W) → Result W
err why >>= next = err why
ok value >>= next = next value

abbrev pub ◌>>◌ {μ} : {W : Type μ} → Result (Unit {0}) → Result W → Result W
err why >> next = err why
ok passed >> next = next

infixl 5 ◌>>=◌ ◌>>◌
-- `v.to_be_bytes()` of a `u16` and of a `u32`.
abbrev pub be16 : ℕ → List ℕ
be16 v = (v / 256 % 256) ∷ (v % 256) ∷ []

abbrev pub be32 : ℕ → List ℕ
be32 v = (v / 2 ^ 24 % 256) ∷ (v / 2 ^ 16 % 256) ∷ (v / 256 % 256) ∷ (v % 256) ∷ []

-- `u32::from_be_bytes` of four bytes of a buffer.
unfoldable pub u32_at : List ℕ → ℕ → ℕ
u32_at p i = u16_at p i * 65536 + u16_at p (i + 2)

unfoldable pub build_request : ℕ → ℕ → ℕ → ℕ → List ℕ
build_request op internal suggested lifetime =
    0 ∷ op ∷ 0 ∷ 0 ∷ (be16 internal ++ (be16 suggested ++ be32 lifetime))

unfoldable pub check_header : List ℕ → ℕ → ℕ → Result (Unit {0})
check_header buf want min_len =
    if ltb (length buf) min_len
    then err (short_response (length buf) min_len)
    else (if not (byte buf 0 == 0)
        then err (wrong_version (byte buf 0))
        else (if not (byte buf 1 == response_to want)
            then err (wrong_opcode (byte buf 1) want)
            else (if not (u16_at buf 2 == 0) then err (refused (u16_at buf 2)) else ok tt)))

unfoldable pub parse_mapping : List ℕ → Proto → Result Mapping
parse_mapping buf proto =
    check_header buf (opcode proto) map_response_len
    >> (if u16_at buf 10 == 0
        then err port_zero
        else ok
            (record { external = u16_at buf 10; lifetime = u32_at buf 12; epoch = u32_at buf 4 }))

unfoldable pub parse_external_address : List ℕ → Result Ipv4Addr
parse_external_address buf = do
  check_header buf op_external addr_response_len
  ok (record { a = byte buf 8; b = byte buf 9; c = byte buf 10; d = byte buf 11 })

-- The well-formed answer of a gateway, as the unit tests of the source build it.
unfoldable pub map_response : ℕ → ℕ → ℕ → ℕ → ℕ → List ℕ
map_response op result external lifetime epoch =
    0
    ∷ response_to op
    ∷ (be16 result ++ (be32 epoch ++ (be16 0 ++ (be16 external ++ be32 lifetime))))
