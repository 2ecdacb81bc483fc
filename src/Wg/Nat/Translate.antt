-- ===== src/Wg/Nat/Translate.antt =====
-- `translate_out`, `translate_in` and `translate_icmp_error` of src/wg.rs. The source rewrites
-- the packet in place: here a method returns the verdict, the packet and the new state. The
-- slice `l4` starts at `h.ihl` in the packet.
use tunnel_rs.Base.Bytes.{byte, u16_at, put_u16}
use tunnel_rs.Base.Table.{find, insert}
use tunnel_rs.Base.{
  ℕ, ◌+◌, ◌-◌, ◌/◌, ◌%◌, ◌^◌, Bool, false, ◌&&◌, ◌||◌, not, Option, none, some, List, ◌++◌, take,
  drop, length, ltb, leb, min, ◌==◌, nat_eq, if◌then◌else◌,
}
use tunnel_rs.Wg.Address.{Ipv4Addr, addr_eq, routable}
use tunnel_rs.Wg.Checksum.{checksum}
use tunnel_rs.Wg.Nat.Bindings.{open_binding, touch}
use tunnel_rs.Wg.Nat.State.{
  FwdKey, FragKey, Binding, Forward, Verdict, translate, drop as dropped, exhausted, Nat,
  fwd_key_eq, rev_key_eq, frag_key_eq, alloc_port, close,
}
use tunnel_rs.Wg.Nat.Tables.{rev_key}
use tunnel_rs.Wg.Packet.{
  Ipv4Hdr, src_side, dst_side, proto_icmp, proto_tcp, has_ports, parse, rewrite_addr, rewrite_port,
  tcp_flags,
}

pub record Outcome : Type 0 where
  pub verdict : Verdict
  pub pkt : List ℕ
  pub nat : Nat

abbrev pub give : Verdict → List ℕ → Nat → Outcome
give v p n = record { verdict = v; pkt = p; nat = n }

-- `tcp_flags(pkt, ihl).is_some_and(|f| f & 0x04 != 0)`
unfoldable pub has_rst : List ℕ → ℕ → Bool
has_rst pkt ihl = elim (tcp_flags pkt ihl) [ none ↦ false | some f ↦ f / 4 % 2 == 1 ]

-- A RST ends the conversation.
unfoldable pub close_on_rst : Nat → List ℕ → ℕ → ℕ → ℕ → Nat
close_on_rst n pkt ihl proto port =
    if proto == proto_tcp && has_rst pkt ihl then close n proto port else n

-- What `translate_out` reads behind the header.
pub data Demux : Type 0 where
  unusable : Demux
  stateless : Demux
  keyed : ℕ → ℕ → Demux

unfoldable pub demux_out : List ℕ → Ipv4Hdr → Demux
demux_out pkt h =
    if has_ports h.proto
    then (if ltb (length pkt - h.ihl) 8
        then unusable
        else keyed (u16_at pkt h.ihl) (u16_at pkt (h.ihl + 2)))
    else (if h.proto == proto_icmp
        then (if ltb (length pkt - h.ihl) 8
            then unusable
            else (if byte pkt h.ihl == 8 then keyed (u16_at pkt (h.ihl + 4)) 0 else stateless))
        else stateless)

-- `matches!(proto, …) && src == f.host && sport == f.port`
unfoldable pub leaves_forward : Option Forward → Ipv4Hdr → ℕ → Bool
leaves_forward none h sport = false
leaves_forward (some f) h sport = has_ports h.proto && (h.src == f.host && sport == f.port)

abbrev pub out_key : Ipv4Hdr → ℕ → ℕ → FwdKey
out_key h sport dport = record {
  proto = h.proto;
  src = h.src;
  sport = sport;
  dst = h.dst;
  dport = dport;
}

-- The packet that leaves with an allocated port.
unfoldable pub out_packet : Ipv4Addr → List ℕ → Ipv4Hdr → ℕ → ℕ → List ℕ
out_packet wg_addr pkt h sport port =
    rewrite_port (rewrite_addr pkt h.ihl src_side h.src wg_addr (some h.proto)) h.ihl src_side
      h.proto sport port

unfoldable pub out_bound : Nat → List ℕ → ℕ → Ipv4Hdr → ℕ → ℕ → Outcome
out_bound n pkt now h sport port =
    let q = out_packet n.wg_addr pkt h sport port in
    give translate q (close_on_rst (touch n h.proto port now) q h.ihl h.proto port)

-- The allocator's answer for a conversation without a port.
unfoldable pub out_alloc : Option ℕ × Nat → List ℕ → ℕ → Ipv4Hdr → ℕ → ℕ → Outcome
out_alloc (none, n) pkt now h sport dport = give exhausted pkt n
out_alloc (some p, n) pkt now h sport dport =
    out_bound (open_binding n (out_key h sport dport) p now) pkt now h sport p

unfoldable pub out_keyed : Nat → List ℕ → ℕ → Ipv4Hdr → ℕ → ℕ → Outcome
out_keyed n pkt now h sport dport =
    if leaves_forward n.forward h sport
    then give translate (rewrite_addr pkt h.ihl src_side h.src n.wg_addr (some h.proto)) n
    else (elim (find (out_key h sport dport) n.fwd) [
      | some p ↦ out_bound n pkt now h sport p
      | none ↦ out_alloc (alloc_port n h.proto) pkt now h sport dport
    ])

-- The address alone is rewritten.
unfoldable pub out_stateless : Nat → List ℕ → Ipv4Hdr → Outcome
out_stateless n pkt h = give translate (rewrite_addr pkt h.ihl src_side h.src n.wg_addr none) n

unfoldable pub out_demuxed : Demux → Nat → List ℕ → ℕ → Ipv4Hdr → Outcome
out_demuxed unusable n pkt now h = give dropped pkt n
out_demuxed stateless n pkt now h = out_stateless n pkt h
out_demuxed (keyed sport dport) n pkt now h = out_keyed n pkt now h sport dport

unfoldable pub out_parsed : Nat → List ℕ → ℕ → Ipv4Hdr → Outcome
out_parsed n pkt now h =
    if not (routable h.dst) || h.dst == n.wg_addr
    then give dropped pkt n
    else (if not (h.frag_offset == 0)
        then out_stateless n pkt h
        else out_demuxed (demux_out pkt h) n pkt now h)

unfoldable pub translate_out : Nat → List ℕ → ℕ → Outcome
translate_out n pkt now = elim (parse pkt) [
  | none ↦ give dropped pkt n
  | some h ↦ out_parsed n pkt now h
]

-- The `frag.insert` of a first fragment.
unfoldable pub note_fragment : Nat → Ipv4Hdr → Ipv4Addr → ℕ → Nat
note_fragment n h host now =
    if h.more_fragments
    then record n {
      frag = insert (record { src = h.src; ip_id = h.ip_id; proto = h.proto }) (host, now) n.frag;
    }
    else n

-- The forward, where it claims the port.
unfoldable pub forward_for : Option Forward → ℕ → ℕ → Option Forward
forward_for none proto port = none
forward_for (some f) proto port = if has_ports proto && port == f.port then some f else none

-- `saturating_add(1)` on a `u64`.
abbrev pub saturating_inc : ℕ → ℕ
saturating_inc c = min (c + 1) (2 ^ 64 - 1)

unfoldable pub in_forward : Nat → List ℕ → ℕ → Ipv4Hdr → Forward → Outcome
in_forward n pkt now h f =
    let m = note_fragment n h f.host now in
    give translate (rewrite_addr pkt h.ihl dst_side n.wg_addr f.host (some h.proto))
      (record m { forwarded_in = saturating_inc m.forwarded_in })

unfoldable pub in_packet : Ipv4Addr → List ℕ → Ipv4Hdr → ℕ → Binding → List ℕ
in_packet wg_addr pkt h port b =
    rewrite_port (rewrite_addr pkt h.ihl dst_side wg_addr b.src (some h.proto)) h.ihl dst_side
      h.proto port b.sport

unfoldable pub in_keyed : Nat → List ℕ → ℕ → Ipv4Hdr → ℕ → Outcome
in_keyed n pkt now h port = elim (forward_for n.forward h.proto port) [
  | some f ↦ in_forward n pkt now h f
  | none ↦ elim (find (rev_key h.proto port) n.rev) [
    | none ↦ give dropped pkt n
    | some b ↦
        let q = in_packet n.wg_addr pkt h port b in
        give translate q
          (close_on_rst (note_fragment (touch n h.proto port now) h b.src now) q h.ihl h.proto port)
  ]
]

-- The endpoint of the host that a quoted packet came from, and the state with its binding
-- refreshed.
unfoldable pub resolve : Nat → ℕ → ℕ → ℕ → Option (Ipv4Addr × ℕ × Nat)
resolve n now proto port = elim (forward_for n.forward proto port) [
  | some f ↦ some (f.host, f.port, n)
  | none ↦ elim (find (rev_key proto port) n.rev) [
    | none ↦ none
    | some b ↦ some (b.src, b.sport, touch n proto port now)
  ]
]

-- The port that a quoted packet was sent from.
unfoldable pub quoted_port : List ℕ → ℕ → Ipv4Hdr → Option ℕ
quoted_port pkt at inner =
    if has_ports inner.proto
    then (if ltb (length pkt) (at + 2) then none else some (u16_at pkt at))
    else (if inner.proto == proto_icmp && (leb (at + 8) (length pkt) && byte pkt at == 8)
        then some (u16_at pkt (at + 4))
        else none)

-- The quote, the outer address and the ICMP checksum restored.
unfoldable pub restore : Nat → List ℕ → ℕ → Ipv4Hdr → ℕ → Ipv4Addr → ℕ → List ℕ
restore n pkt ihl inner port host hport =
    let at = ihl + 8 in
    let quote =
      rewrite_port (rewrite_addr (drop at pkt) inner.ihl src_side n.wg_addr host (some inner.proto))
        inner.ihl src_side inner.proto port hport in
    let outer = rewrite_addr (take at pkt ++ quote) ihl dst_side n.wg_addr host none in
    let cleared = put_u16 outer (ihl + 2) 0 in
    put_u16 cleared (ihl + 2) (checksum (drop ihl cleared))

unfoldable pub icmp_inner : Nat → List ℕ → ℕ → ℕ → Ipv4Hdr → Outcome
icmp_inner n pkt ihl now inner =
    if not (inner.src == n.wg_addr)
    then give dropped pkt n
    else (elim (quoted_port pkt (ihl + 8 + inner.ihl) inner) [
      | none ↦ give dropped pkt n
      | some port ↦ elim (resolve n now inner.proto port) [
        | none ↦ give dropped pkt n
        | some (host, hport, m) ↦ give translate (restore n pkt ihl inner port host hport) m
      ]
    ])

unfoldable pub translate_icmp_error : Nat → List ℕ → ℕ → ℕ → Outcome
translate_icmp_error n pkt ihl now =
    if ltb (length pkt) (ihl + 8) then give dropped pkt n else (elim (parse (drop (ihl + 8) pkt)) [
      | none ↦ give dropped pkt n
      | some inner ↦ icmp_inner n pkt ihl now inner
    ])

-- The ICMP types that quote the packet that caused them.
abbrev pub quotes : ℕ → Bool
quotes t = t == 3 || (t == 4 || (t == 5 || (t == 11 || t == 12)))

unfoldable pub in_icmp : Nat → List ℕ → ℕ → Ipv4Hdr → Outcome
in_icmp n pkt now h =
    if ltb (length pkt - h.ihl) 8
    then give dropped pkt n
    else (if byte pkt h.ihl == 0
        then in_keyed n pkt now h (u16_at pkt (h.ihl + 4))
        else (if quotes (byte pkt h.ihl)
            then translate_icmp_error n pkt h.ihl now
            else give dropped pkt n))

-- A later fragment is matched on the sender's identification.
unfoldable pub in_fragment : Nat → List ℕ → Ipv4Hdr → Outcome
in_fragment n pkt h =
    elim (find (let k : FragKey = record { src = h.src; ip_id = h.ip_id; proto = h.proto } in k)
      n.frag) [
        | none ↦ give dropped pkt n
        | some (orig, _) ↦ give translate (rewrite_addr pkt h.ihl dst_side h.dst orig none) n
      ]

unfoldable pub in_parsed : Nat → List ℕ → ℕ → Ipv4Hdr → Outcome
in_parsed n pkt now h =
    if not (h.dst == n.wg_addr)
    then give dropped pkt n
    else (if not (h.frag_offset == 0)
        then in_fragment n pkt h
        else (if has_ports h.proto
            then (if ltb (length pkt - h.ihl) 8
                then give dropped pkt n
                else in_keyed n pkt now h (u16_at pkt (h.ihl + 2)))
            else (if h.proto == proto_icmp then in_icmp n pkt now h else give dropped pkt n)))

unfoldable pub translate_in : Nat → List ℕ → ℕ → Outcome
translate_in n pkt now = elim (parse pkt) [
  | none ↦ give dropped pkt n
  | some h ↦ in_parsed n pkt now h
]
