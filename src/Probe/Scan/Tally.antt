-- ===== src/Probe/Scan/Tally.antt =====
-- Counting the ports of a list by a test, for the scan of src/probe.rs: two sorted lists that
-- count alike are the same.
use tunnel_rs.Base.{
  ℕ, zero, suc, ◌+◌, ◌≤◌, ◌<◌, ◌≡◌, refl, sym, ap, inl, inr, Bool, true, none, some, List, [], ◌∷◌,
  ◌++◌, length, get_elem?, take, ltb, leb, nat_eq, if◌then◌else◌, arith, Bool-cases,
}
use tunnel_rs.Probe.Ports.{insert, sort}
use tunnel_rs.Probe.Ports.Sorting.{Sorted, AtLeast, Ascending}

-- How many elements pass the test.
unfoldable pub tally : (ℕ → Bool) → List ℕ → ℕ
tally f [] = 0
tally f (x ∷ xs) = (if f x then 1 else 0) + tally f xs

module _ (f : ℕ → Bool) where
  pub tally-append : (xs ys : List ℕ) → tally f (xs ++ ys) ≡ tally f xs + tally f ys
  unfolding tally
  tally-append [] ys = omega arith
  tally-append (x ∷ xs) ys = omega (arith, tally-append xs ys)

  pub tally-insert : (n : ℕ) (xs : List ℕ) → tally f (insert n xs) ≡ tally f (n ∷ []) + tally f xs
  unfolding tally insert
  tally-insert n [] = omega arith
  tally-insert n (x ∷ xs) = ground (arith, tally-insert n xs)

  pub tally-sort : (xs : List ℕ) → tally f (sort xs) ≡ tally f xs
  unfolding tally sort
  tally-sort [] = refl
  tally-sort (x ∷ xs) = omega (arith, tally-insert x (sort xs), tally-sort xs)

  pub tally-take :
      (xs : List ℕ) (n x : ℕ)
      → get_elem? xs n ≡ some x
      → tally f (take (suc n) xs) ≡ tally f (x ∷ []) + tally f (take n xs)
  unfolding tally
  tally-take [] n x h = cc
  tally-take (y ∷ xs) zero x h = let same : y ≡ x = cc h in rw same (omega arith)
  tally-take (y ∷ xs) (suc n) x h = omega (arith, tally-take xs n x h)

pub take-none :
    (xs : List ℕ) (n : ℕ)
    → get_elem? xs n ≡ none
    → (take n xs ≡ xs) × (take (suc n) xs ≡ xs) × (length xs ≤ n)
take-none [] zero h = (refl, refl, omega arith)
take-none [] (suc n) h = (refl, refl, omega arith)
take-none (x ∷ xs) zero h = cc
take-none (x ∷ xs) (suc n) h =
    let (a, b, c) = take-none xs n h in
    (ap (λ (z : List ℕ). x ∷ z) a, ap (λ (z : List ℕ). x ∷ z) b, omega arith)

pub take-all : (xs : List ℕ) (n : ℕ) → length xs ≤ n → take n xs ≡ xs
take-all [] zero h = refl
take-all [] (suc n) h = refl
take-all (x ∷ xs) zero h = absurd (omega arith)
take-all (x ∷ xs) (suc n) h = ap (λ (z : List ℕ). x ∷ z) (take-all xs n (omega arith))

-- No element of a sorted list is less than its first.
tally-below :
    (m n : ℕ) (xs : List ℕ) → m < n → AtLeast n xs → Sorted xs → tally (λ z. leb z m) xs ≡ 0
unfolding tally
tally-below m n [] lt a s = refl
tally-below m n (x ∷ xs) lt a s = ground (arith, tally-below m x xs (omega arith) s.0 s.1)

tally-first : (x : ℕ) (xs : List ℕ) → 0 < tally (λ z. leb z x) (x ∷ xs)
unfolding tally
tally-first x xs = ground arith

first-le :
    (x y : ℕ) (xs ys : List ℕ)
    → Sorted (y ∷ ys)
    → ((f : ℕ → Bool) → tally f (x ∷ xs) ≡ tally f (y ∷ ys))
    → y ≤ x
first-le x y xs ys s same = elim (Bool-cases (ltb x y)) [
  | inl lt ↦
      let none_low = tally-below x y (y ∷ ys) (ground arith) (omega arith) s in
      absurd (omega (arith, tally-first x xs, same (λ z. leb z x)))
  | inr ge ↦ ground arith
]

-- Sorted lists with the same counts are equal.
pub Sorted-unique :
    (xs ys : List ℕ) → Sorted xs → Sorted ys → ((f : ℕ → Bool) → tally f xs ≡ tally f ys) → xs ≡ ys
unfolding tally
Sorted-unique [] [] s t same = refl
Sorted-unique [] (y ∷ ys) s t same = absurd (omega (arith, same (λ z. true)))
Sorted-unique (x ∷ xs) [] s t same = absurd (omega (arith, same (λ z. true)))
Sorted-unique (x ∷ xs) (y ∷ ys) s t same =
    let low = first-le x y xs ys t same in
    let high = first-le y x ys xs s (λ f. sym (same f)) in
    let first : x ≡ y = omega arith in
    let rest = Sorted-unique xs ys s.1 t.1 (λ f.
      (let e = same f in
        let weight : ℕ → ℕ = λ z. if f z then 1 else 0 in
        let k : weight x ≡ weight y = ap weight first in omega (arith, e, k))) in
    rw (first, rest) refl

pub Ascending-Sorted : (xs : List ℕ) → Ascending xs → Sorted xs
Ascending-Sorted [] a = tt
Ascending-Sorted (x ∷ []) a = (tt, tt)
Ascending-Sorted (x ∷ y ∷ ys) a = (omega arith, Ascending-Sorted (y ∷ ys) a.1)
