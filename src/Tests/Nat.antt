-- ===== src/Tests/Nat.antt =====
-- The NAT of src/wg.rs on one conversation: a SYN of the host, and the server's answer.
use tunnel_rs.Base.Bytes.{byte, u16_at, put_u16, AllBytes}
use tunnel_rs.Base.Table
use tunnel_rs.Base.{
  ℕ, zero, suc, ◌+◌, ◌/◌, ◌%◌, ◌<◌, ◌≤◌, ◌≡◌, ◌≢◌, ◌↔◌, refl, Bool, true, false, none, some, List,
  [], ◌∷◌, length, take, ltb, ◌==◌, nat_eq, arith, ◌&&◌,
}
use tunnel_rs.Wg.Address.{Ipv4Addr, routable, addr_eq}
use tunnel_rs.Wg.Checksum.Update
use tunnel_rs.Wg.Checksum.{fold_carries, patch16, patch32, sum_words, checksum}
use tunnel_rs.Wg.Nat.Alloc
use tunnel_rs.Wg.Nat.Bindings.{open_binding, touch}
use tunnel_rs.Wg.Nat.Checked
use tunnel_rs.Wg.Nat.Expiry
use tunnel_rs.Wg.Nat.Forwarding
use tunnel_rs.Wg.Nat.RoundTrip
use tunnel_rs.Wg.Nat.Sent.{Outgoing, Reply, Unshadowed}
use tunnel_rs.Wg.Nat.State.{
  Nat, Binding, Forward, FwdKey, translate, drop as dropped, new, set_forward, clear_forward,
  forward_port, reserved, advance, taken, scan, alloc_port, close, idle, fresh, purge, expire,
  port_lo, port_hi, rev_key_eq, fwd_key_eq, secs,
}
use tunnel_rs.Wg.Nat.Tables.{IsValid, rev_key}
use tunnel_rs.Wg.Nat.Translate.{
  give, has_rst, close_on_rst, demux_out, leaves_forward, out_packet, out_bound, out_alloc,
  out_keyed, out_stateless, out_demuxed, out_parsed, translate_out, note_fragment, forward_for,
  in_forward, in_packet, in_keyed, resolve, quoted_port, restore, icmp_inner, translate_icmp_error,
  in_icmp, in_fragment, in_parsed, translate_in, saturating_inc,
}
use tunnel_rs.Wg.Nat.Valid
use tunnel_rs.Wg.Packet.Repair.{HeaderOk}
use tunnel_rs.Wg.Packet.{
  Ipv4Hdr, header, parse, addr_at, l4_csum_offset, store_l4_csum, put_addr, patch_hdr_csum,
  patch_l4_at, patch_l4, patch_icmp_id, rewrite_addr, rewrite_port, tcp_flags, proto_tcp,
}

-- Opens the NAT for the runs below.
program : Unit {0}
unfolding byte u16_at put_u16 Table.find Table.contains Table.insert Table.remove Table.retain
    routable fold_carries patch16 patch32 sum_words checksum open_binding touch new set_forward
    clear_forward forward_port reserved advance taken scan alloc_port close idle fresh purge expire
    has_rst close_on_rst demux_out leaves_forward out_packet out_bound out_alloc out_keyed
    out_stateless out_demuxed out_parsed translate_out note_fragment forward_for in_forward
    in_packet in_keyed resolve quoted_port restore icmp_inner translate_icmp_error in_icmp
    in_fragment in_parsed translate_in header parse addr_at l4_csum_offset store_l4_csum put_addr
    patch_hdr_csum patch_l4_at patch_l4 patch_icmp_id rewrite_addr rewrite_port tcp_flags
program = tt

abbrev host : Ipv4Addr
host = record { a = 198; b = 18; c = 0; d = 1 }

abbrev wg : Ipv4Addr
wg = record { a = 10; b = 2; c = 0; d = 2 }

abbrev server : Ipv4Addr
server = record { a = 93; b = 184; c = 216; d = 34 }

-- An IPv4 header of 40 bytes in all, without its checksum, and a TCP header.
abbrev tcp_bytes : ℕ → ℕ → Ipv4Addr → Ipv4Addr → ℕ → ℕ → List ℕ
tcp_bytes c1 c2 s d sport dport =
    0x45
    ∷ 0
    ∷ 0
    ∷ 40
    ∷ 0
    ∷ 1
    ∷ 0
    ∷ 0
    ∷ 64
    ∷ 6
    ∷ c1
    ∷ c2
    ∷ s.a
    ∷ s.b
    ∷ s.c
    ∷ s.d
    ∷ d.a
    ∷ d.b
    ∷ d.c
    ∷ d.d
    ∷ (sport / 256)
    ∷ (sport % 256)
    ∷ (dport / 256)
    ∷ (dport % 256)
    ∷ 0
    ∷ 0
    ∷ 0
    ∷ 1
    ∷ 0
    ∷ 0
    ∷ 0
    ∷ 0
    ∷ 0x50
    ∷ 2
    ∷ 0
    ∷ 0
    ∷ 0
    ∷ 0
    ∷ 0
    ∷ 0
    ∷ []

-- A SYN of the host, with the header checksum that checks out.
abbrev syn : List ℕ
syn = tcp_bytes 0x7e 0xe1 host server 40000 443

-- The server's answer to the first allocated port.
abbrev answer : List ℕ
answer = tcp_bytes 0 0 server wg 443 1024

abbrev syn_hdr : Ipv4Hdr
syn_hdr = record {
  ihl = 20;
  proto = 6;
  src = host;
  dst = server;
  ip_id = 1;
  frag_offset = 0;
  more_fragments = false;
}

abbrev answer_hdr : Ipv4Hdr
answer_hdr = record syn_hdr { src = server; dst = wg }

abbrev empty : Nat
empty = new wg

empty-IsValid : IsValid empty
empty-IsValid = Valid.new-IsValid wg

empty-Unshadowed : Unshadowed empty
unfolding program
empty-Unshadowed f proto on ports = cc

syn-Outgoing : Outgoing empty syn syn_hdr
unfolding program
syn-Outgoing = record {
  read = refl;
  ports = refl;
  first = refl;
  room = omega arith;
  away = refl;
  other = refl;
}

syn_sent : (translate_out empty syn 0).verdict ≡ translate
unfolding program
syn_sent = refl

syn_plain : leaves_forward empty.forward syn_hdr (u16_at syn 20) ≡ false
unfolding program
syn_plain = refl

syn_quiet : (syn_hdr.proto == proto_tcp && has_rst (translate_out empty syn 0).pkt 20) ≡ false
unfolding program
syn_quiet = refl

-- The source of the SYN is rewritten, and both checksums follow.
syn_translated :
    take 24 (translate_out empty syn 0).pkt ≡ take 24 (tcp_bytes 0x3a 0xf1 wg server 1024 443)
unfolding program
syn_translated = refl

answer-Reply :
    Reply
      (translate_out empty syn 0).nat
      answer
      answer_hdr
      6
      (u16_at (translate_out empty syn 0).pkt 20)
unfolding program
answer-Reply = record {
  read = refl;
  same_proto = refl;
  first = refl;
  room = omega arith;
  to_us = refl;
  to_port = refl;
}

translate_in-translate_out_example :
    let o = translate_in (translate_out empty syn 0).nat answer 5 in
    (o.verdict ≡ translate)
    × (parse o.pkt ≡ some (record answer_hdr { dst = host }))
    × (u16_at o.pkt 22 ≡ u16_at syn 20)
    × (u16_at o.pkt 20 ≡ u16_at answer 20)
    × (length o.pkt ≡ length answer)
translate_in-translate_out_example =
    RoundTrip.translate_in-translate_out empty syn 0 syn_hdr empty-IsValid empty-Unshadowed
      syn-Outgoing syn_plain syn_sent answer 5 answer_hdr syn_quiet answer-Reply

translate_out_packet_example :
    let q = (translate_out empty syn 0).pkt in
    (parse q ≡ some (record syn_hdr { src = wg }))
    × (u16_at q 22 ≡ u16_at syn 22)
    × (port_lo ≤ u16_at q 20)
    × (u16_at q 20 ≤ port_hi)
    × (length q ≡ length syn)
unfolding new
translate_out_packet_example =
    RoundTrip.translate_out_packet empty syn 0 syn_hdr empty-IsValid empty-Unshadowed syn-Outgoing
      syn_plain syn_sent

syn-read : parse syn ≡ some syn_hdr
unfolding program
syn-read = refl

syn-HeaderOk : HeaderOk syn 20
unfolding program
syn-HeaderOk = refl

bytes_below : List ℕ → Bool
bytes_below [] = true
bytes_below (x ∷ p) = ltb x 256 && bytes_below p

all_bytes : (p : List ℕ) (i : ℕ) → bytes_below p ≡ true → byte p i < 256
unfolding byte bytes_below
all_bytes [] i e = omega arith
all_bytes (x ∷ p) zero e = ground arith
all_bytes (x ∷ p) (suc i) e = all_bytes p i (ground arith)

syn-AllBytes : AllBytes syn
unfolding bytes_below
syn-AllBytes i = all_bytes syn i refl

translate_out-HeaderOk_example : HeaderOk (translate_out empty syn 0).pkt 20
translate_out-HeaderOk_example =
    Checked.translate_out-HeaderOk empty syn 0 syn_hdr syn-read syn-AllBytes
      (unfold new in omega arith) syn-HeaderOk

patch16-csum_of_example :
    patch16 (Update.csum_of (0x1234 + 0xffff)) 0xffff 7 ≡ Update.csum_of (0x1234 + 7)
patch16-csum_of_example =
    Update.patch16-csum_of 0x1234 0xffff 7 (omega arith) (omega arith) (omega arith) (omega arith)

alloc_port-eq-none_iff_example : ((alloc_port empty 6).0 ≡ none) ↔ (16384 ≤ length empty.rev)
alloc_port-eq-none_iff_example = Alloc.alloc_port-eq-none_iff empty 6 empty-IsValid

translate_out-IsValid_example : IsValid (translate_out empty syn 0).nat
translate_out-IsValid_example = Valid.translate_out-IsValid empty syn 0 empty-IsValid

abbrev opened : Nat
opened = (translate_out empty syn 0).nat

opened-IsValid : IsValid opened
opened-IsValid = Valid.translate_out-IsValid empty syn 0 empty-IsValid

translate_in-IsValid_example : IsValid (translate_in (translate_out empty syn 0).nat answer 5).nat
translate_in-IsValid_example =
    Valid.translate_in-IsValid (translate_out empty syn 0).nat answer 5 opened-IsValid

abbrev syn_key : FwdKey
syn_key = record { proto = 6; src = host; sport = 40000; dst = server; dport = 443 }

syn_port : Table.find syn_key opened.fwd ≡ some 1024
unfolding program
syn_port = refl

abbrev syn_binding : Binding
syn_binding = record { src = host; sport = 40000; dst = server; dport = 443; last = 0 }

syn_held : Table.find (rev_key 6 1024) opened.rev ≡ some syn_binding
unfolding program
syn_held = refl

-- One second short of ten minutes the conversation is held, and at ten minutes it is gone.
expire_lem_example :
    (Table.find (rev_key 6 1024) (expire opened (secs 599)).1.rev ≡ some syn_binding)
    × (Table.find syn_key (expire opened (secs 599)).1.fwd ≡ some 1024)
expire_lem_example =
    Expiry.expire_lem opened (secs 599) opened-IsValid syn_key 1024 syn_binding syn_held refl

syn_expired : (expire opened (secs 600)).1.rev ≡ []
unfolding program
syn_expired = refl

-- A NAT that forwards another port than the one the answer is for.
abbrev elsewhere : Nat
elsewhere = set_forward empty host 2000

stray-Reply : Reply elsewhere answer answer_hdr 6 1024
unfolding program
stray-Reply = record {
  read = refl;
  same_proto = refl;
  first = refl;
  room = omega arith;
  to_us = refl;
  to_port = refl;
}

nothing_held : Table.find (rev_key 6 1024) elsewhere.rev ≡ none
unfolding program
nothing_held = refl

other_port : (f : Forward) → elsewhere.forward ≡ some f → f.port ≢ 1024
unfolding program
other_port f on = ground arith

unsolicited_dropped_example : translate_in elsewhere answer 5 ≡ give dropped answer elsewhere
unsolicited_dropped_example =
    Forwarding.unsolicited_dropped elsewhere answer 5 answer_hdr 6 1024 refl stray-Reply
      nothing_held other_port

abbrev forwarding : Nat
forwarding = set_forward empty host 1024

abbrev to_host : Forward
to_host = record { host = host; port = 1024 }

forwarding-forward : forwarding.forward ≡ some to_host
unfolding program
forwarding-forward = refl

peer-Reply : Reply forwarding answer answer_hdr 6 1024
unfolding program
peer-Reply = record {
  read = refl;
  same_proto = refl;
  first = refl;
  room = omega arith;
  to_us = refl;
  to_port = refl;
}

forward_accepts_example :
    let o = translate_in forwarding answer 5 in
    (o.verdict ≡ translate)
    × (parse o.pkt ≡ some (record answer_hdr { dst = host }))
    × (u16_at o.pkt 22 ≡ 1024)
    × (u16_at o.pkt 20 ≡ u16_at answer 20)
    × (o.nat.forwarded_in ≡ saturating_inc forwarding.forwarded_in)
    × (o.nat.rev ≡ forwarding.rev)
    × (o.nat.fwd ≡ forwarding.fwd)
forward_accepts_example =
    Forwarding.forward_accepts forwarding answer 5 answer_hdr 6 to_host refl forwarding-forward
      peer-Reply

-- The host answers the peer from the forwarded port.
abbrev back : List ℕ
back = tcp_bytes 0 0 host server 1024 443

back-Outgoing : Outgoing forwarding back syn_hdr
unfolding program
back-Outgoing = record {
  read = refl;
  ports = refl;
  first = refl;
  room = omega arith;
  away = refl;
  other = refl;
}

back_port : u16_at back 20 ≡ 1024
unfolding program
back_port = refl

forward_keeps_port_example :
    let o = translate_out forwarding back 5 in
    (o.verdict ≡ translate)
    × (parse o.pkt ≡ some (record syn_hdr { src = forwarding.wg_addr }))
    × (u16_at o.pkt 20 ≡ 1024)
    × (u16_at o.pkt 22 ≡ u16_at back 22)
    × (o.nat ≡ forwarding)
forward_keeps_port_example =
    Forwarding.forward_keeps_port forwarding back 5 syn_hdr to_host forwarding-forward back-Outgoing
      refl back_port

answer-Reply-opened : Reply opened answer answer_hdr 6 1024
unfolding program
answer-Reply-opened = record {
  read = refl;
  same_proto = refl;
  first = refl;
  room = omega arith;
  to_us = refl;
  to_port = refl;
}

set_forward_shadows_example :
    let o = translate_in (set_forward opened host 1024) answer 5 in
    (o.verdict ≡ translate)
    × (parse o.pkt ≡ some (record answer_hdr { dst = host }))
    × (u16_at o.pkt 22 ≢ 40000)
set_forward_shadows_example =
    Forwarding.set_forward_shadows opened answer 5 answer_hdr 6 1024 host syn_binding refl syn_held
      (omega arith) answer-Reply-opened
