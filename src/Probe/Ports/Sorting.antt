-- ===== src/Probe/Ports/Sorting.antt =====
-- The sort and the removal of repeats behind `parse_ports` of src/probe.rs: the same numbers, in
-- strictly ascending order.
use tunnel_rs.Base.{
  ℕ, zero, suc, ◌+◌, ◌≤◌, ◌≡◌, refl, inl, inr, Bool, false, ◌&&◌, ◌||◌, List, [], ◌∷◌, ◌++◌, ltb,
  leb, ◌==◌, nat_eq, arith, Bool-cases,
}
use tunnel_rs.Probe.Ports.{range, insert, sort, unless_first, dedup}

-- Whether a number stands in a list.
abbrev pub has : List ℕ → ℕ → Bool
has [] p = false
has (x ∷ xs) p = x == p || has xs p

pub has-append : (xs ys : List ℕ) (p : ℕ) → has (xs ++ ys) p ≡ (has xs p || has ys p)
has-append [] ys p = refl
has-append (x ∷ xs) ys p = ground (arith, has-append xs ys p)

pub has-range : (lo n p : ℕ) → has (range lo n) p ≡ (leb lo p && ltb p (lo + n))
unfolding range
has-range lo zero p = ground arith
has-range lo (suc n) p = ground (arith, has-range (lo + 1) n p)

has-insert : (n : ℕ) (xs : List ℕ) (p : ℕ) → has (insert n xs) p ≡ (n == p || has xs p)
unfolding insert
has-insert n [] p = refl
has-insert n (x ∷ xs) p = ground (arith, has-insert n xs p)

pub has-sort : (xs : List ℕ) (p : ℕ) → has (sort xs) p ≡ has xs p
unfolding sort
has-sort [] p = refl
has-sort (x ∷ xs) p = ground (arith, has-insert x (sort xs) p, has-sort xs p)

has-unless_first : (x : ℕ) (xs : List ℕ) (p : ℕ) → has (unless_first x xs) p ≡ (x == p || has xs p)
has-unless_first x [] p = refl
has-unless_first x (y ∷ ys) p = ground arith

pub has-dedup : (xs : List ℕ) (p : ℕ) → has (dedup xs) p ≡ has xs p
unfolding dedup
has-dedup [] p = refl
has-dedup (x ∷ xs) p = ground (arith, has-unless_first x (dedup xs) p, has-dedup xs p)

-- Every element is at least the bound.
abbrev pub AtLeast : ℕ → List ℕ → Type 0
AtLeast n [] = Unit
AtLeast n (x ∷ xs) = n ≤ x

abbrev pub Sorted : List ℕ → Type 0
Sorted [] = Unit
Sorted (x ∷ xs) = AtLeast x xs × Sorted xs

-- Each number is less than the next.
abbrev pub Ascending : List ℕ → Type 0
Ascending [] = Unit
Ascending (x ∷ xs) = AtLeast (suc x) xs × Ascending xs

insert-AtLeast : (m n : ℕ) (xs : List ℕ) → m ≤ n → AtLeast m xs → AtLeast m (insert n xs)
unfolding insert
insert-AtLeast m n [] le a = le
insert-AtLeast m n (x ∷ xs) le a = ground arith

pub insert-Sorted : (n : ℕ) (xs : List ℕ) → Sorted xs → Sorted (insert n xs)
unfolding insert
insert-Sorted n [] s = (tt, tt)
insert-Sorted n (x ∷ xs) s = elim (Bool-cases (leb n x)) [
  | inl low ↦ rw low (ground arith, s)
  | inr high ↦ rw high (insert-AtLeast x n xs (ground arith) s.0, insert-Sorted n xs s.1)
]

pub sort-Sorted : (xs : List ℕ) → Sorted (sort xs)
unfolding sort
sort-Sorted [] = tt
sort-Sorted (x ∷ xs) = insert-Sorted x (sort xs) (sort-Sorted xs)

unless_first-AtLeast : (n x : ℕ) (xs : List ℕ) → n ≤ x → AtLeast n (unless_first x xs)
unless_first-AtLeast n x [] le = le
unless_first-AtLeast n x (y ∷ ys) le = ground arith

dedup-AtLeast : (n : ℕ) (xs : List ℕ) → AtLeast n xs → AtLeast n (dedup xs)
unfolding dedup
dedup-AtLeast n [] a = tt
dedup-AtLeast n (x ∷ xs) a = unless_first-AtLeast n x (dedup xs) a

unless_first-Ascending :
    (x : ℕ) (xs : List ℕ) → AtLeast x xs → Ascending xs → Ascending (unless_first x xs)
unless_first-Ascending x [] a s = (tt, tt)
unless_first-Ascending x (y ∷ ys) a s = elim (Bool-cases (x == y)) [
  | inl same ↦ rw same s
  | inr other ↦ rw other (ground arith, s)
]

pub dedup-Ascending : (xs : List ℕ) → Sorted xs → Ascending (dedup xs)
unfolding dedup
dedup-Ascending [] s = tt
dedup-Ascending (x ∷ xs) s =
    unless_first-Ascending x (dedup xs) (dedup-AtLeast x xs s.0) (dedup-Ascending xs s.1)
