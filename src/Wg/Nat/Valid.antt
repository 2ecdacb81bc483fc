-- ===== src/Wg/Nat/Valid.antt =====
-- Every packet keeps the NAT of src/wg.rs well formed, and what a drop leaves alone.
use tunnel_rs.Base.Bytes.{byte, u16_at}
use tunnel_rs.Base.Table.{Table, find, contains-find}
use tunnel_rs.Base.{
  ℕ, ◌+◌, ◌-◌, ◌≡◌, ◌∙◌, refl, ap, inl, inr, false, ◌&&◌, ◌||◌, not, Option, none, some, List,
  length, drop, ltb, ◌==◌, nat_eq, arith, Bool-cases, Option-cases,
}
use tunnel_rs.Wg.Address.{Ipv4Addr, addr_eq, routable}
use tunnel_rs.Wg.Nat.Alloc.{alloc_port_lem, alloc_port-IsValid}
use tunnel_rs.Wg.Nat.Bindings.{
  open_binding, touch, open_binding-IsValid, touch-IsValid, close-IsValid,
}
use tunnel_rs.Wg.Nat.State.{
  Forward, Nat, new, set_forward, clear_forward, alloc_port, taken, fwd_key_eq, rev_key_eq, FragKey,
  frag_key_eq,
}
use tunnel_rs.Wg.Nat.Tables.{IsValid, rev_key}
use tunnel_rs.Wg.Nat.Translate.{
  Demux, close_on_rst, has_rst, demux_out, unusable, stateless, keyed, out_key, leaves_forward,
  out_packet, out_bound, out_alloc, out_keyed, out_stateless, out_demuxed, out_parsed,
  translate_out, note_fragment, forward_for, in_forward, in_packet, in_keyed, resolve, quoted_port,
  icmp_inner, translate_icmp_error, quotes, in_icmp, in_fragment, in_parsed, translate_in,
}
use tunnel_rs.Wg.Packet.{Ipv4Hdr, parse, proto_tcp, proto_icmp, has_ports}

pub new-IsValid : (a : Ipv4Addr) → IsValid (new a)
unfolding new find
new-IsValid a = record {
  distinct_fwd = tt;
  distinct_rev = tt;
  inverse = λ k p. ((λ h. cc), (λ h. cc));
  in_range = λ r h. absurd (h refl);
  bounded = omega arith;
  cursor_lo = omega arith;
  cursor_hi = omega arith;
}

-- The invariant is about the two tables and the cursor alone.
reframe-IsValid :
    (n : Nat) (frag : Table FragKey (Ipv4Addr × ℕ)) (forward : Option Forward) (count : ℕ)
    → IsValid n
    → IsValid (record n { frag = frag; forward = forward; forwarded_in = count })
reframe-IsValid n frag forward count v = record {
  distinct_fwd = v.distinct_fwd;
  distinct_rev = v.distinct_rev;
  inverse = v.inverse;
  in_range = v.in_range;
  bounded = v.bounded;
  cursor_lo = v.cursor_lo;
  cursor_hi = v.cursor_hi;
}

pub set_forward-IsValid :
    (n : Nat) (host : Ipv4Addr) (port : ℕ) → IsValid n → IsValid (set_forward n host port)
unfolding set_forward
set_forward-IsValid n host port =
    reframe-IsValid n n.frag (some (record { host = host; port = port })) n.forwarded_in

pub clear_forward-IsValid : (n : Nat) → IsValid n → IsValid (clear_forward n)
unfolding clear_forward
clear_forward-IsValid n = reframe-IsValid n n.frag none n.forwarded_in

note_fragment-IsValid :
    (n : Nat) (h : Ipv4Hdr) (host : Ipv4Addr) (now : ℕ)
    → IsValid n
    → IsValid (note_fragment n h host now)
unfolding note_fragment
note_fragment-IsValid n h host now v = elim (Bool-cases h.more_fragments) [
  | inl more ↦ rw more (reframe-IsValid n _ n.forward n.forwarded_in v)
  | inr last ↦ rw last v
]

close_on_rst-IsValid :
    (n : Nat) (pkt : List ℕ) (ihl proto port : ℕ)
    → IsValid n
    → IsValid (close_on_rst n pkt ihl proto port)
unfolding close_on_rst
close_on_rst-IsValid n pkt ihl proto port v =
    elim (Bool-cases (proto == proto_tcp && has_rst pkt ihl)) [
      | inl rst ↦ rw rst (close-IsValid n proto port v)
      | inr on ↦ rw on v
    ]

out_bound-IsValid :
    (n : Nat) (pkt : List ℕ) (now : ℕ) (h : Ipv4Hdr) (sport port : ℕ)
    → IsValid n
    → IsValid (out_bound n pkt now h sport port).nat
unfolding out_bound
out_bound-IsValid n pkt now h sport port v =
    close_on_rst-IsValid (touch n h.proto port now) (out_packet n.wg_addr pkt h sport port) h.ihl
      h.proto port (touch-IsValid n h.proto port now v)

-- A port that is not taken has no binding.
pub find_of_free :
    (n : Nat) (proto p : ℕ) → taken n proto p ≡ false → find (rev_key proto p) n.rev ≡ none
unfolding taken
find_of_free n proto p h = contains-find (rev_key proto p) n.rev (ground arith)

out_alloc-IsValid :
    (n : Nat) (pkt : List ℕ) (now : ℕ) (h : Ipv4Hdr) (sport dport : ℕ)
    → IsValid n
    → find (out_key h sport dport) n.fwd ≡ none
    → IsValid (out_alloc (alloc_port n h.proto) pkt now h sport dport).nat
unfolding out_alloc
out_alloc-IsValid n pkt now h sport dport v fresh =
    let m = (alloc_port n h.proto).1 in
    let k = out_key h sport dport in
    elim (Option-cases (alloc_port n h.proto).0) [
      | inl e ↦ rw (e, out_alloc) (alloc_port-IsValid n h.proto v)
      | inr (p, e) ↦
          let (free, lo, hi, room, same) = alloc_port_lem n h.proto v p e in
          rw (e, out_alloc)
            (out_bound-IsValid (open_binding m k p now) pkt now h sport p (
              open_binding-IsValid m k p now (alloc_port-IsValid n h.proto v)
                (ap (λ (s : Nat). find k s.fwd) same ∙ fresh)
                (ap (λ (s : Nat). find (rev_key h.proto p) s.rev) same
                  ∙ find_of_free n h.proto p free)
                lo hi (rw (ap (λ (s : Nat). length s.rev) same) room)))
    ]

out_keyed-IsValid :
    (n : Nat) (pkt : List ℕ) (now : ℕ) (h : Ipv4Hdr) (sport dport : ℕ)
    → IsValid n
    → IsValid (out_keyed n pkt now h sport dport).nat
unfolding out_keyed
out_keyed-IsValid n pkt now h sport dport v = elim (Bool-cases (leaves_forward n.forward h sport)) [
  | inl f ↦ rw f v
  | inr o ↦ elim (Option-cases (find (out_key h sport dport) n.fwd)) [
    | inl e ↦ rw (o, e, out_keyed) (out_alloc-IsValid n pkt now h sport dport v e)
    | inr (p, e) ↦ rw (o, e, out_keyed) (out_bound-IsValid n pkt now h sport p v)
  ]
]

out_demuxed-IsValid :
    (d : Demux) (n : Nat) (pkt : List ℕ) (now : ℕ) (h : Ipv4Hdr)
    → IsValid n
    → IsValid (out_demuxed d n pkt now h).nat
unfolding out_demuxed out_stateless
out_demuxed-IsValid unusable n pkt now h v = v
out_demuxed-IsValid stateless n pkt now h v = v
out_demuxed-IsValid (keyed sport dport) n pkt now h v = out_keyed-IsValid n pkt now h sport dport v

-- Every outgoing packet, of any shape, keeps the state well formed.
pub translate_out-IsValid :
    (n : Nat) (pkt : List ℕ) (now : ℕ) → IsValid n → IsValid (translate_out n pkt now).nat
unfolding translate_out out_parsed out_stateless
translate_out-IsValid n pkt now v = elim (Option-cases (parse pkt)) [
  | inl e ↦ rw (e, translate_out) v
  | inr (h, e) ↦ rw (e, translate_out) (parsed h)
]
  where
    parsed : (h : Ipv4Hdr) → IsValid (out_parsed n pkt now h).nat
    parsed h = elim (Bool-cases (not (routable h.dst) || h.dst == n.wg_addr)) [
      | inl away ↦ rw away v
      | inr on ↦ rw on (elim (Bool-cases (not (h.frag_offset == 0))) [
        | inl later ↦ rw later v
        | inr first ↦ rw first (out_demuxed-IsValid (demux_out pkt h) n pkt now h v)
      ])
    ]

in_keyed-IsValid :
    (n : Nat) (pkt : List ℕ) (now : ℕ) (h : Ipv4Hdr) (port : ℕ)
    → IsValid n
    → IsValid (in_keyed n pkt now h port).nat
unfolding in_keyed in_forward
in_keyed-IsValid n pkt now h port v = elim (Option-cases (forward_for n.forward h.proto port)) [
  | inr (f, e) ↦
      let m = note_fragment n h f.host now in
      rw (e, in_keyed)
        (reframe-IsValid m m.frag m.forward _ (note_fragment-IsValid n h f.host now v))
  | inl e ↦ elim (Option-cases (find (rev_key h.proto port) n.rev)) [
    | inl e2 ↦ rw (e, e2, in_keyed) v
    | inr (b, e2) ↦
        rw (e, e2, in_keyed)
          (close_on_rst-IsValid (note_fragment (touch n h.proto port now) h b.src now)
            (in_packet n.wg_addr pkt h port b) h.ihl h.proto port
            (note_fragment-IsValid (touch n h.proto port now) h b.src now
              (touch-IsValid n h.proto port now v)))
  ]
]

resolve-IsValid :
    (n : Nat) (now proto port : ℕ) (host : Ipv4Addr) (hport : ℕ) (m : Nat)
    → IsValid n
    → resolve n now proto port ≡ some (host, hport, m)
    → IsValid m
unfolding resolve
resolve-IsValid n now proto port host hport m v e =
    elim (Option-cases (forward_for n.forward proto port)) [
      | inr (f, e1) ↦ rw (let same : m ≡ n = ground arith in same) v
      | inl e1 ↦ elim (Option-cases (find (rev_key proto port) n.rev)) [
        | inl e2 ↦ absurd (ground arith)
        | inr (b, e2) ↦
            rw (let same : m ≡ touch n proto port now = ground arith in same)
              (touch-IsValid n proto port now v)
      ]
    ]

translate_icmp_error-IsValid :
    (n : Nat) (pkt : List ℕ) (ihl now : ℕ)
    → IsValid n
    → IsValid (translate_icmp_error n pkt ihl now).nat
unfolding translate_icmp_error icmp_inner
translate_icmp_error-IsValid n pkt ihl now v = elim (Bool-cases (ltb (length pkt) (ihl + 8))) [
  | inl short ↦ rw short v
  | inr long ↦ rw long (elim (Option-cases (parse (drop (ihl + 8) pkt))) [
    | inl e ↦ rw e v
    | inr (inner, e) ↦ rw e (elim (Bool-cases (not (inner.src == n.wg_addr))) [
      | inl alien ↦ rw alien v
      | inr ours ↦ rw ours (elim (Option-cases (quoted_port pkt (ihl + 8 + inner.ihl) inner)) [
        | inl e2 ↦ rw e2 v
        | inr (port, e2) ↦ rw e2 (elim (Option-cases (resolve n now inner.proto port)) [
          | inl e3 ↦ rw e3 v
          | inr ((host, hport, m), e3) ↦
              rw e3 (resolve-IsValid n now inner.proto port host hport m v e3)
        ])
      ])
    ])
  ])
]

in_fragment-IsValid :
    (n : Nat) (pkt : List ℕ) (h : Ipv4Hdr) → IsValid n → IsValid (in_fragment n pkt h).nat
unfolding in_fragment
in_fragment-IsValid n pkt h v =
    elim (Option-cases (
      find (let k : FragKey = record { src = h.src; ip_id = h.ip_id; proto = h.proto } in k)
        n.frag)) [ inl e ↦ rw (e, in_fragment) v | inr (o, e) ↦ rw (e, in_fragment) v ]

in_icmp-IsValid :
    (n : Nat) (pkt : List ℕ) (now : ℕ) (h : Ipv4Hdr) → IsValid n → IsValid (in_icmp n pkt now h).nat
unfolding in_icmp
in_icmp-IsValid n pkt now h v = elim (Bool-cases (ltb (length pkt - h.ihl) 8)) [
  | inl short ↦ rw short v
  | inr long ↦ rw long (elim (Bool-cases (byte pkt h.ihl == 0)) [
    | inl reply ↦ rw reply (in_keyed-IsValid n pkt now h (u16_at pkt (h.ihl + 4)) v)
    | inr other ↦ rw other (elim (Bool-cases (quotes (byte pkt h.ihl))) [
      | inl q ↦ rw q (translate_icmp_error-IsValid n pkt h.ihl now v)
      | inr none_of_them ↦ rw none_of_them v
    ])
  ])
]

in_parsed-IsValid :
    (n : Nat) (pkt : List ℕ) (now : ℕ) (h : Ipv4Hdr)
    → IsValid n
    → IsValid (in_parsed n pkt now h).nat
unfolding in_parsed
in_parsed-IsValid n pkt now h v = elim (Bool-cases (not (h.dst == n.wg_addr))) [
  | inl away ↦ rw away v
  | inr here ↦ rw here (elim (Bool-cases (not (h.frag_offset == 0))) [
    | inl later ↦ rw later (in_fragment-IsValid n pkt h v)
    | inr first ↦ rw first (elim (Bool-cases (has_ports h.proto)) [
      | inl ports ↦ rw ports (elim (Bool-cases (ltb (length pkt - h.ihl) 8)) [
        | inl short ↦ rw short v
        | inr long ↦ rw long (in_keyed-IsValid n pkt now h (u16_at pkt (h.ihl + 2)) v)
      ])
      | inr no_ports ↦ rw no_ports (elim (Bool-cases (h.proto == proto_icmp)) [
        | inl icmp ↦ rw icmp (in_icmp-IsValid n pkt now h v)
        | inr other ↦ rw other v
      ])
    ])
  ])
]

-- Every incoming packet, of any shape, keeps the state well formed.
pub translate_in-IsValid :
    (n : Nat) (pkt : List ℕ) (now : ℕ) → IsValid n → IsValid (translate_in n pkt now).nat
unfolding translate_in
translate_in-IsValid n pkt now v = elim (Option-cases (parse pkt)) [
  | inl e ↦ rw (e, translate_in) v
  | inr (h, e) ↦ rw (e, translate_in) (in_parsed-IsValid n pkt now h v)
]
