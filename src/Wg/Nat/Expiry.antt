-- ===== src/Wg/Nat/Expiry.antt =====
-- `expire` of src/wg.rs: the bindings that have gone silent are dropped on both sides, and no
-- other.
use tunnel_rs.Base.Table.{
  Table, find, remove, Distinct, find-remove, find-retain, remove-Distinct, retain-Distinct,
  length-retain,
}
use tunnel_rs.Base.{
  ℕ, ◌≡◌, refl, inl, inr, Bool, true, false, ◌&&◌, ◌||◌, not, ◌-◌, ltb, none, some, [], ◌∷◌, ◌==◌,
  nat_eq, if◌then◌else◌, arith, ◌>>=◌, Bool-cases, Option-cases,
}
use tunnel_rs.Wg.Nat.State.{
  FwdKey, RevKey, Binding, Nat, fwd_key_eq, rev_key_eq, fwd_key_beq_iff, rev_key_beq_iff, key_of,
  frag_key_eq, idle, fresh, purge, expire,
}
use tunnel_rs.Wg.Nat.Tables.{rev_key, owner, IsValid}

-- Some silent binding of the table belongs to the conversation.
silent : ℕ → FwdKey → Table RevKey Binding → Bool
silent now k [] = false
silent now k ((r, b) ∷ m) = not (fresh now r b) && key_of r.proto b == k || silent now k m

find-purge :
    (now : ℕ) (k : FwdKey) (m : Table RevKey Binding) (fwd : Table FwdKey ℕ)
    → find k (purge now m fwd) ≡ (if silent now k m then none else find k fwd)
unfolding purge silent
find-purge now k [] fwd = refl
find-purge now k ((r, b) ∷ m) fwd =
    rw (find-purge now k m (if fresh now r b then fwd else remove (key_of r.proto b) fwd))
      (ground (arith, find-remove (key_of r.proto b) k fwd))

purge-Distinct :
    (now : ℕ) (m : Table RevKey Binding) (fwd : Table FwdKey ℕ)
    → Distinct fwd
    → Distinct (purge now m fwd)
unfolding purge
purge-Distinct now [] fwd d = d
purge-Distinct now ((r, b) ∷ m) fwd d =
    purge-Distinct now m (if fresh now r b then fwd else remove (key_of r.proto b) fwd)
      (elim (Bool-cases (fresh now r b)) [
        | inl f ↦ rw f d
        | inr s ↦ rw s (remove-Distinct (key_of r.proto b) fwd d)
      ])

-- A silent conversation names its binding.
silent-binding :
    (now : ℕ) (k : FwdKey) (m : Table RevKey Binding)
    → Distinct m
    → silent now k m ≡ true
    → (r : RevKey) × (b : Binding) × (find r m ≡ some b)
      × (fresh now r b ≡ false)
      × (key_of r.proto b ≡ k)
unfolding silent find
silent-binding now k [] d h = cc
silent-binding now k ((r, b) ∷ m) d h =
    elim (Bool-cases (not (fresh now r b) && key_of r.proto b == k)) [
      | inl here ↦ (
        r,
        b,
        ground (arith, rev_key_beq_iff r r),
        ground arith,
        ground (arith, fwd_key_beq_iff (key_of r.proto b) k),
      )
      | inr other ↦
          let (q, c, held, old, same) = silent-binding now k m d.1 (ground arith) in
          (q, c, ground (arith, rev_key_beq_iff r q), old, same)
    ]

binding-silent :
    (now : ℕ) (r : RevKey) (b : Binding) (m : Table RevKey Binding)
    → find r m ≡ some b
    → fresh now r b ≡ false
    → silent now (key_of r.proto b) m ≡ true
unfolding silent find
binding-silent now r b [] e s = cc
binding-silent now r b ((q, c) ∷ m) e s = ground (
  arith,
  rev_key_beq_iff q r,
  binding-silent now r b m,
  fwd_key_beq_iff (key_of q.proto c) (key_of r.proto b),
)

-- How long a binding of this IP protocol lives unused, in nanoseconds: ten minutes for TCP, two
-- for UDP, one for all else.
abbrev pub lifetime : ℕ → ℕ
lifetime proto =
    if proto == 6
    then 600_000_000_000
    else (if proto == 17 then 120_000_000_000 else 60_000_000_000)

idle-lifetime : (proto : ℕ) → idle proto ≡ lifetime proto
unfolding idle
idle-lifetime proto = refl

module _ (n : Nat) (now : ℕ) (v : IsValid n) where
  -- A binding is kept exactly where it is fresh.
  pub find-expire_rev :
      (r : RevKey)
      → find r (expire n now).1.rev ≡ (find r n.rev >>= λ b. if fresh now r b then some b else none)
  unfolding expire
  find-expire_rev r = find-retain (fresh now) r n.rev v.distinct_rev

  -- A conversation is forgotten exactly where a silent binding is its own.
  find-expire_fwd :
      (k : FwdKey)
      → find k (expire n now).1.fwd ≡ (if silent now k n.rev then none else find k n.fwd)
  unfolding expire
  find-expire_fwd k = find-purge now k n.rev n.fwd

  kept_owner :
      (k : FwdKey) (p : ℕ)
      → find k (expire n now).1.fwd ≡ some p
      → owner (expire n now).1.rev (rev_key k.proto p) ≡ some k
  kept_owner k p h =
      let r = rev_key k.proto p in
      elim (Option-cases (find r n.rev)) [
        | inl e ↦ absurd (ground (arith, find-expire_fwd k, (v.inverse k p).0))
        | inr (b, e) ↦ elim (Bool-cases (fresh now r b)) [
          | inl f ↦ ground (arith, find-expire_fwd k, (v.inverse k p).0, find-expire_rev r)
          | inr old ↦ absurd (
              ground
                (arith, find-expire_fwd k, (v.inverse k p).0, binding-silent now r b n.rev e old))
        ]
      ]

  owner_kept :
      (k : FwdKey) (p : ℕ)
      → owner (expire n now).1.rev (rev_key k.proto p) ≡ some k
      → find k (expire n now).1.fwd ≡ some p
  owner_kept k p h =
      let r = rev_key k.proto p in
      elim (Option-cases (find r n.rev)) [
        | inl e ↦ absurd (ground (arith, find-expire_rev r))
        | inr (b, e) ↦ elim (Bool-cases (silent now k n.rev)) [
          | inr loud ↦ ground (arith, find-expire_fwd k, find-expire_rev r, (v.inverse k p).1)
          | inl gone ↦
              let (q, c, held, old, same) = silent-binding now k n.rev v.distinct_rev gone in
              absurd (ground (arith, find-expire_rev r, (v.inverse k p).1, (v.inverse k q.port).1))
        ]
      ]

  -- `expire` keeps a well-formed state well formed.
  pub expire-IsValid : IsValid (expire n now).1
  expire-IsValid = record {
    distinct_fwd = unfold expire in purge-Distinct now n.rev n.fwd v.distinct_fwd;
    distinct_rev = unfold expire in retain-Distinct (fresh now) n.rev v.distinct_rev;
    inverse = λ k p. (kept_owner k p, owner_kept k p);
    in_range = λ r h. v.in_range r (λ e. h (rw (find-expire_rev r, e)));
    bounded = unfold expire in omega (arith, length-retain (fresh now) n.rev, v.bounded);
    cursor_lo = unfold expire in v.cursor_lo;
    cursor_hi = unfold expire in v.cursor_hi;
  }

  expire-fresh :
      (k : FwdKey) (p : ℕ) (b : Binding)
      → find (rev_key k.proto p) n.rev ≡ some b
      → key_of k.proto b ≡ k
      → (find (rev_key k.proto p) (expire n now).1.rev
          ≡ (if fresh now (rev_key k.proto p) b then some b else none))
        × (find k (expire n now).1.fwd ≡ (if fresh now (rev_key k.proto p) b then some p else none))
  expire-fresh k p b e same =
      let r = rev_key k.proto p in
      elim (Bool-cases (fresh now r b)) [
        | inl f ↦ (
          ground (arith, find-expire_rev r),
          rw f (owner_kept k p (ground (arith, find-expire_rev r))),
        )
        | inr old ↦ (
          ground (arith, find-expire_rev r),
          ground (arith, find-expire_fwd k, binding-silent now r b n.rev e old),
        )
      ]

  -- In a well-formed NAT, `expire` keeps a binding and the port of its conversation if the
  -- binding was used less than ten minutes ago for TCP, two minutes for UDP and one minute for
  -- anything else, and removes both if it was not.
  pub expire_lem :
      (k : FwdKey) (p : ℕ) (b : Binding)
      → find (rev_key k.proto p) n.rev ≡ some b
      → key_of k.proto b ≡ k
      → (find (rev_key k.proto p) (expire n now).1.rev
          ≡ (if ltb (now - b.last) (lifetime k.proto) then some b else none))
        × (find k (expire n now).1.fwd
            ≡ (if ltb (now - b.last) (lifetime k.proto) then some p else none))
  unfolding fresh
  expire_lem k p b e same = rw (← idle-lifetime k.proto) (expire-fresh k p b e same)
