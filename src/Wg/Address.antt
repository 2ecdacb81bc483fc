-- ===== src/Wg/Address.antt =====
-- `std::net::Ipv4Addr` as its four octets, with the classes of addresses that `routable` of
-- src/wg.rs asks for, and `tunnel_gateway`.
use tunnel_rs.Base.{
  ℕ, ◌+◌, ◌*◌, ◌<◌, ◌≡◌, ◌↔◌, Bool, true, ◌&&◌, ◌||◌, not, arith, leb, nat_beq, Eq, ◌==◌, nat_eq,
}

pub record Ipv4Addr : Type 0 where
  pub a : ℕ
  pub b : ℕ
  pub c : ℕ
  pub d : ℕ

abbrev pub addr_beq : Ipv4Addr → Ipv4Addr → Bool
addr_beq x y = nat_beq x.a y.a && (nat_beq x.b y.b && (nat_beq x.c y.c && nat_beq x.d y.d))

pub addr_beq_iff : (x y : Ipv4Addr) → (addr_beq x y ≡ true) ↔ (x ≡ y)
addr_beq_iff x y = ground arith

instance abbrev pub addr_eq : Eq Ipv4Addr
addr_eq = record { beq = addr_beq; beq_iff = addr_beq_iff }

-- The two 16-bit halves, as `patch32` reads the octets.
abbrev pub high : Ipv4Addr → ℕ
high x = x.a * 256 + x.b

abbrev pub low : Ipv4Addr → ℕ
low x = x.c * 256 + x.d

-- Every octet is a byte.
pub record IsAddr (x : Ipv4Addr) : Type 0 where
  pub a_lt : x.a < 256
  pub b_lt : x.b < 256
  pub c_lt : x.c < 256
  pub d_lt : x.d < 256

abbrev is_multicast : Ipv4Addr → Bool
is_multicast x = leb 224 x.a && leb x.a 239

abbrev is_broadcast : Ipv4Addr → Bool
is_broadcast x = addr_beq x (record { a = 255; b = 255; c = 255; d = 255 })

abbrev is_loopback : Ipv4Addr → Bool
is_loopback x = x.a == 127

abbrev is_unspecified : Ipv4Addr → Bool
is_unspecified x = addr_beq x (record { a = 0; b = 0; c = 0; d = 0 })

abbrev is_link_local : Ipv4Addr → Bool
is_link_local x = x.a == 169 && x.b == 254

-- Addresses a remote exit can route a reply back from.
unfoldable pub routable : Ipv4Addr → Bool
routable x =
    not (
      is_multicast x
      || (is_broadcast x || (is_loopback x || (is_unspecified x || is_link_local x))))

-- The gateway on the tunnel: our address with the host part set to 1.
unfoldable pub tunnel_gateway : Ipv4Addr → Ipv4Addr
tunnel_gateway x = record x { d = 1 }
