-- ===== src/Wg/Nat/State.antt =====
-- The tables of `Nat` in src/wg.rs, the allocator `alloc_port`, and the operations on the
-- tables alone: `close`, `expire`, `set_forward`, `clear_forward`.
use tunnel_rs.Base.Table.{Table, find, contains, remove, retain}
use tunnel_rs.Base.{
  ℕ, zero, suc, ◌+◌, ◌-◌, ◌*◌, ◌≡◌, ◌↔◌, Bool, true, false, ◌&&◌, ◌||◌, Option, none, some, [], ◌∷◌,
  length, ltb, leb, nat_beq, Eq, ◌==◌, nat_eq, if◌then◌else◌, arith,
}
use tunnel_rs.Wg.Address.{Ipv4Addr, addr_beq, addr_beq_iff, addr_eq}
use tunnel_rs.Wg.Packet.{proto_tcp, proto_udp, has_ports}

abbrev pub secs : ℕ → ℕ
secs n = n * 1_000_000_000

abbrev pub max_bindings : ℕ
max_bindings = 16384

abbrev pub tcp_idle : ℕ
tcp_idle = secs 600

abbrev pub udp_idle : ℕ
udp_idle = secs 120

abbrev pub icmp_idle : ℕ
icmp_idle = secs 60

abbrev pub frag_idle : ℕ
frag_idle = secs 30

abbrev pub port_lo : ℕ
port_lo = 1024

abbrev pub port_hi : ℕ
port_hi = 65535

pub record FwdKey : Type 0 where
  pub proto : ℕ
  pub src : Ipv4Addr
  pub sport : ℕ
  pub dst : Ipv4Addr
  pub dport : ℕ

pub record RevKey : Type 0 where
  pub proto : ℕ
  pub port : ℕ

pub record FragKey : Type 0 where
  pub src : Ipv4Addr
  pub ip_id : ℕ
  pub proto : ℕ

pub record Binding : Type 0 where
  pub src : Ipv4Addr
  pub sport : ℕ
  pub dst : Ipv4Addr
  pub dport : ℕ
  pub last : ℕ

pub record Forward : Type 0 where
  pub host : Ipv4Addr
  pub port : ℕ

pub data Verdict : Type 0 where
  translate drop exhausted : Verdict

-- The derived `Eq` of the keys.
abbrev pub fwd_key_beq : FwdKey → FwdKey → Bool
fwd_key_beq x y =
    nat_beq x.proto y.proto
    && (addr_beq x.src y.src
        && (nat_beq x.sport y.sport && (addr_beq x.dst y.dst && nat_beq x.dport y.dport)))

pub fwd_key_beq_iff : (x y : FwdKey) → (fwd_key_beq x y ≡ true) ↔ (x ≡ y)
fwd_key_beq_iff x y = ground (arith, addr_beq_iff x.src y.src, addr_beq_iff x.dst y.dst)

instance abbrev pub fwd_key_eq : Eq FwdKey
fwd_key_eq = record { beq = fwd_key_beq; beq_iff = fwd_key_beq_iff }

abbrev pub rev_key_beq : RevKey → RevKey → Bool
rev_key_beq x y = nat_beq x.proto y.proto && nat_beq x.port y.port

pub rev_key_beq_iff : (x y : RevKey) → (rev_key_beq x y ≡ true) ↔ (x ≡ y)
rev_key_beq_iff x y = ground arith

instance abbrev pub rev_key_eq : Eq RevKey
rev_key_eq = record { beq = rev_key_beq; beq_iff = rev_key_beq_iff }

abbrev pub frag_key_beq : FragKey → FragKey → Bool
frag_key_beq x y = addr_beq x.src y.src && (nat_beq x.ip_id y.ip_id && nat_beq x.proto y.proto)

pub frag_key_beq_iff : (x y : FragKey) → (frag_key_beq x y ≡ true) ↔ (x ≡ y)
frag_key_beq_iff x y = ground (arith, addr_beq_iff x.src y.src)

instance abbrev pub frag_key_eq : Eq FragKey
frag_key_eq = record { beq = frag_key_beq; beq_iff = frag_key_beq_iff }

pub record Nat : Type 0 where
  pub wg_addr : Ipv4Addr
  pub fwd : Table FwdKey ℕ
  pub rev : Table RevKey Binding
  pub frag : Table FragKey (Ipv4Addr × ℕ)
  pub next_port : ℕ
  pub forward : Option Forward
  pub forwarded_in : ℕ

unfoldable pub new : Ipv4Addr → Nat
new wg_addr = record {
  wg_addr = wg_addr;
  fwd = [];
  rev = [];
  frag = [];
  next_port = port_lo;
  forward = none;
  forwarded_in = 0;
}

unfoldable pub set_forward : Nat → Ipv4Addr → ℕ → Nat
set_forward n host port = record n { forward = some (record { host = host; port = port }) }

unfoldable pub clear_forward : Nat → Nat
clear_forward n = record n { forward = none }

unfoldable pub forward_port : Nat → Option ℕ
forward_port n = elim n.forward [ none ↦ none | some f ↦ some f.port ]

-- The forwarded port is reserved for TCP and UDP.
unfoldable pub reserved : Option Forward → ℕ → ℕ → Bool
reserved none proto port = false
reserved (some f) proto port = has_ports proto && f.port == port

-- The cursor after `port`.
unfoldable pub advance : ℕ → ℕ
advance port = if leb port_hi port then port_lo else port + 1

-- The ports that `alloc_port` passes over.
unfoldable pub taken : Nat → ℕ → ℕ → Bool
taken n proto port =
    reserved n.forward proto port
    || contains (let k : RevKey = record { proto = proto; port = port } in k) n.rev

-- The loop of `alloc_port` over the rounds left: the port found, and the cursor.
unfoldable pub scan : (ℕ → Bool) → ℕ → ℕ → Option ℕ × ℕ
scan busy zero cursor = (none, cursor)
scan busy (suc rounds) cursor =
    let rest = scan busy rounds (advance cursor) in
    if busy cursor then rest else (some cursor, advance cursor)

abbrev pub span : ℕ
span = port_hi - port_lo + 1

unfoldable pub alloc_port : Nat → ℕ → Option ℕ × Nat
alloc_port n proto =
    let found = scan (taken n proto) span n.next_port in
    if leb max_bindings (length n.rev)
    then (none, n)
    else (found.0, record n { next_port = found.1 })

-- The forward key of the conversation that a binding belongs to.
abbrev pub key_of : ℕ → Binding → FwdKey
key_of proto b = record {
  proto = proto;
  src = b.src;
  sport = b.sport;
  dst = b.dst;
  dport = b.dport;
}

unfoldable pub close : Nat → ℕ → ℕ → Nat
close n proto port =
    let k : RevKey = record { proto = proto; port = port } in
    elim (find k n.rev) [
      | none ↦ n
      | some b ↦ record n { rev = remove k n.rev; fwd = remove (key_of proto b) n.fwd }
    ]

unfoldable pub idle : ℕ → ℕ
idle proto =
    if proto == proto_tcp then tcp_idle else (if proto == proto_udp then udp_idle else icmp_idle)

-- The test of the `retain` in `expire`.
unfoldable pub fresh : ℕ → RevKey → Binding → Bool
fresh now k b = ltb (now - b.last) (idle k.proto)

-- What the closure of that `retain` does to the forward table, entry by entry.
unfoldable pub purge : ℕ → Table RevKey Binding → Table FwdKey ℕ → Table FwdKey ℕ
purge now [] fwd = fwd
purge now ((k, b) ∷ m) fwd =
    purge now m (if fresh now k b then fwd else remove (key_of k.proto b) fwd)

unfoldable pub expire : Nat → ℕ → ℕ × Nat
expire n now =
    let kept = retain (fresh now) n.rev in
    (
      length n.rev - length kept,
      record n {
        rev = kept;
        fwd = purge now n.rev n.fwd;
        frag = retain (λ _ e. ltb (now - e.1) frag_idle) n.frag;
      },
    )
