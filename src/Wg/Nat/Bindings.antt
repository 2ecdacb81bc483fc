-- ===== src/Wg/Nat/Bindings.antt =====
-- Every operation on one binding of `Nat` in src/wg.rs keeps the state well formed: the opening
-- in `translate_out`, the refresh of `last`, and `close`.
use tunnel_rs.Base.Table.{
  find, insert, find-insert, find-remove, insert-Distinct, remove-Distinct, length-insert,
  length-insert_found, length-remove,
}
use tunnel_rs.Base.{
  ℕ, ◌<◌, ◌≤◌, ◌≡◌, ◌≢◌, refl, inl, inr, none, some, length, nat_eq, arith, Option-cases,
}
use tunnel_rs.Wg.Nat.State.{
  FwdKey, RevKey, Binding, Nat, fwd_key_eq, rev_key_eq, fwd_key_beq_iff, rev_key_beq_iff, key_of,
  max_bindings, port_lo, port_hi, close,
}
use tunnel_rs.Wg.Nat.Tables.{
  rev_key, IsValid, InRange, insert-Inverse, refresh-Inverse, remove-Inverse,
}

-- The two inserts of `translate_out` for a conversation that has no port yet.
unfoldable pub open_binding : Nat → FwdKey → ℕ → ℕ → Nat
unfolding insert
open_binding n k p now = record n {
  fwd = insert k p n.fwd;
  rev =
      insert (rev_key k.proto p)
        (record { src = k.src; sport = k.sport; dst = k.dst; dport = k.dport; last = now }) n.rev;
}

-- `if let Some(b) = self.rev.get_mut(…) { b.last = now; }`
unfoldable pub touch : Nat → ℕ → ℕ → ℕ → Nat
unfolding find insert
touch n proto port now = elim (find (rev_key proto port) n.rev) [
  | none ↦ n
  | some b ↦ record n { rev = insert (rev_key proto port) (record b { last = now }) n.rev }
]

InRange-insert :
    (n : Nat) (r : RevKey) (b : Binding)
    → InRange n.rev
    → port_lo ≤ r.port
    → r.port ≤ port_hi
    → InRange (insert r b n.rev)
InRange-insert n r b all lo hi q h =
    ground (arith, all q, find-insert r q b n.rev, rev_key_beq_iff r q)

pub open_binding-IsValid :
    (n : Nat) (k : FwdKey) (p now : ℕ)
    → IsValid n
    → find k n.fwd ≡ none
    → find (rev_key k.proto p) n.rev ≡ none
    → port_lo ≤ p
    → p ≤ port_hi
    → length n.rev < max_bindings
    → IsValid (open_binding n k p now)
unfolding open_binding
open_binding-IsValid n k p now v new_key new_port lo hi room =
    let b : Binding = record {
      src = k.src;
      sport = k.sport;
      dst = k.dst;
      dport = k.dport;
      last = now;
    } in
    record {
      distinct_fwd = insert-Distinct k p n.fwd v.distinct_fwd;
      distinct_rev = insert-Distinct (rev_key k.proto p) b n.rev v.distinct_rev;
      inverse = insert-Inverse n.fwd n.rev v.inverse k.proto p b new_key new_port;
      in_range = InRange-insert n (rev_key k.proto p) b v.in_range lo hi;
      bounded = omega (arith, length-insert (rev_key k.proto p) b n.rev);
      cursor_lo = v.cursor_lo;
      cursor_hi = v.cursor_hi;
    }

pub touch-IsValid : (n : Nat) (proto port now : ℕ) → IsValid n → IsValid (touch n proto port now)
unfolding touch
touch-IsValid n proto port now v = elim (Option-cases (find (rev_key proto port) n.rev)) [
  | inl e ↦ rw (e, touch) v
  | inr (b, e) ↦
      let c : Binding = record b { last = now } in
      let r = rev_key proto port in
      let there : find r n.rev ≢ none = λ h. ground arith in
      rw (e, touch)
        (record {
          distinct_fwd = v.distinct_fwd;
          distinct_rev = insert-Distinct r c n.rev v.distinct_rev;
          inverse = refresh-Inverse n.fwd n.rev v.inverse r b c e refl;
          in_range = InRange-insert n r c v.in_range (v.in_range r there).0 (v.in_range r there).1;
          bounded = omega (arith, length-insert_found r c n.rev there);
          cursor_lo = v.cursor_lo;
          cursor_hi = v.cursor_hi;
        })
]

pub close-IsValid : (n : Nat) (proto port : ℕ) → IsValid n → IsValid (close n proto port)
unfolding close
close-IsValid n proto port v = elim (Option-cases (find (rev_key proto port) n.rev)) [
  | inl e ↦ rw (e, close) v
  | inr (b, e) ↦
      let r = rev_key proto port in
      rw (e, close)
        (record {
          distinct_fwd = remove-Distinct (key_of proto b) n.fwd v.distinct_fwd;
          distinct_rev = remove-Distinct r n.rev v.distinct_rev;
          inverse = remove-Inverse n.fwd n.rev v.inverse r b e;
          in_range = λ q h. v.in_range q (λ gone. ground (arith, find-remove r q n.rev));
          bounded = omega (arith, length-remove r n.rev);
          cursor_lo = v.cursor_lo;
          cursor_hi = v.cursor_hi;
        })
]

-- `close` frees the port and forgets its conversation.
pub close_lem :
    (n : Nat) (k : FwdKey) (p : ℕ)
    → IsValid n
    → find k n.fwd ≡ some p
    → (find k (close n k.proto p).fwd ≡ none)
      × (find (rev_key k.proto p) (close n k.proto p).rev ≡ none)
unfolding close
close_lem n k p v h =
    let held = (v.inverse k p).0 h in
    elim (Option-cases (find (rev_key k.proto p) n.rev)) [
      | inl e ↦ absurd (ground arith)
      | inr (b, e) ↦ ground (
        arith,
        find-remove (key_of k.proto b) k n.fwd,
        find-remove (rev_key k.proto p) (rev_key k.proto p) n.rev,
        fwd_key_beq_iff (key_of k.proto b) k,
      )
    ]
