-- ===== src/Wg/Nat/Tables.antt =====
-- The invariant of the two tables of `Nat` in src/wg.rs, and the operations that open, refresh
-- and close one binding.
use tunnel_rs.Base.Table.{Table, find, insert, remove, Distinct, find-insert, find-remove}
use tunnel_rs.Base.{ℕ, ◌≤◌, ◌≡◌, ◌≢◌, ◌↔◌, Option, none, some, length, nat_eq, arith, ◌>>=◌}
use tunnel_rs.Wg.Nat.State.{
  FwdKey, RevKey, Binding, Nat, fwd_key_eq, rev_key_eq, fwd_key_beq_iff, rev_key_beq_iff, key_of,
  max_bindings, port_lo, port_hi,
}

-- Who holds an allocated port: the conversation of its binding.
abbrev pub owner : Table RevKey Binding → RevKey → Option FwdKey
owner rev r = find r rev >>= λ b. some (key_of r.proto b)

abbrev pub rev_key : ℕ → ℕ → RevKey
rev_key proto port = record { proto = proto; port = port }

-- The two tables are inverse to one another: a conversation has a port exactly where the port
-- belongs to the conversation.
abbrev pub Inverse : Table FwdKey ℕ → Table RevKey Binding → Type 0
Inverse fwd rev =
    (k : FwdKey) (p : ℕ) → (find k fwd ≡ some p) ↔ (owner rev (rev_key k.proto p) ≡ some k)

-- Every allocated port is in the ephemeral range.
abbrev pub InRange : Table RevKey Binding → Type 0
InRange rev = (r : RevKey) → find r rev ≢ none → (port_lo ≤ r.port) × (r.port ≤ port_hi)

-- Well-formed state of the NAT.
pub record IsValid (n : Nat) : Type 0 where
  pub distinct_fwd : Distinct n.fwd
  pub distinct_rev : Distinct n.rev
  pub inverse : Inverse n.fwd n.rev
  pub in_range : InRange n.rev
  pub bounded : length n.rev ≤ max_bindings
  pub cursor_lo : port_lo ≤ n.next_port
  pub cursor_hi : n.next_port ≤ port_hi

-- In a well-formed NAT no two conversations of one protocol share a port.
pub port_unique :
    (n : Nat) (j k : FwdKey) (p : ℕ)
    → IsValid n
    → find j n.fwd ≡ some p
    → find k n.fwd ≡ some p
    → j.proto ≡ k.proto
    → j ≡ k
port_unique n j k p v hj hk same =
    let a = (v.inverse j p).0 hj in let b = (v.inverse k p).0 hk in ground arith

module _ (fwd : Table FwdKey ℕ) (rev : Table RevKey Binding) (inv : Inverse fwd rev) where
  -- A new conversation on a free port.
  pub insert-Inverse :
      (proto p : ℕ) (b : Binding)
      → find (key_of proto b) fwd ≡ none
      → find (rev_key proto p) rev ≡ none
      → Inverse (insert (key_of proto b) p fwd) (insert (rev_key proto p) b rev)
  insert-Inverse proto p b new_key new_port k q = ground (
    arith,
    inv k q,
    find-insert (key_of proto b) k p fwd,
    find-insert (rev_key proto p) (rev_key k.proto q) b rev,
    fwd_key_beq_iff (key_of proto b) k,
    rev_key_beq_iff (rev_key proto p) (rev_key k.proto q),
  )

  -- A binding replaced by one of the same conversation.
  pub refresh-Inverse :
      (r : RevKey) (b c : Binding)
      → find r rev ≡ some b
      → key_of r.proto c ≡ key_of r.proto b
      → Inverse fwd (insert r c rev)
  refresh-Inverse r b c held same k q = ground (
    arith,
    inv k q,
    find-insert r (rev_key k.proto q) c rev,
    rev_key_beq_iff r (rev_key k.proto q),
  )

  -- A conversation closed on both sides.
  pub remove-Inverse :
      (r : RevKey) (b : Binding)
      → find r rev ≡ some b
      → Inverse (remove (key_of r.proto b) fwd) (remove r rev)
  remove-Inverse r b held k q = ground (
    arith,
    inv k q,
    inv (key_of r.proto b) r.port,
    find-remove (key_of r.proto b) k fwd,
    find-remove r (rev_key k.proto q) rev,
    fwd_key_beq_iff (key_of r.proto b) k,
    rev_key_beq_iff r (rev_key k.proto q),
  )
