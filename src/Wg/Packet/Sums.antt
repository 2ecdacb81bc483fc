-- ===== src/Wg/Packet/Sums.antt =====
-- The IPv4 header checksum under the rewrites of src/wg.rs: a header that checks out still does.
use tunnel_rs.Base.Bytes.{
  byte, u16_at, put_u16, AllBytes, u16_at-put_u16, u16_at-put_u16_ne, u16_at-lt,
}
use tunnel_rs.Base.{
  ℕ, zero, suc, ◌+◌, ◌*◌, ◌/◌, ◌%◌, ◌<◌, ◌≤◌, ◌≡◌, ◌≢◌, refl, inl, inr, List, [], ◌∷◌, length, take,
  nat_beq, nat_eq, arith, Bool-cases,
}
use tunnel_rs.Wg.Address.{Ipv4Addr, IsAddr, addr_eq, high, low}
use tunnel_rs.Wg.Checksum.{sum_words}
use tunnel_rs.Wg.Packet.{put_addr}

-- The sum of the first `n` words.
unfoldable pub word_sum : List ℕ → ℕ → ℕ
word_sum p zero = 0
word_sum p (suc n) = word_sum p n + u16_at p (2 * n)

sum_words-acc : (acc : ℕ) (p : List ℕ) → sum_words acc p ≡ acc + sum_words 0 p
unfolding sum_words
sum_words-acc acc [] = omega arith
sum_words-acc acc (x ∷ []) = omega arith
sum_words-acc acc (x ∷ y ∷ p) =
    omega (arith, sum_words-acc (acc + (x * 256 + y)) p, sum_words-acc (0 + (x * 256 + y)) p)

-- The sum over words from the front.
word_sum-front :
    (x y : ℕ) (p : List ℕ) (n : ℕ) → word_sum (x ∷ y ∷ p) (suc n) ≡ x * 256 + y + word_sum p n
unfolding word_sum u16_at byte
word_sum-front x y p zero = omega arith
word_sum-front x y p (suc n) =
    let e : 2 * suc n ≡ suc (suc (2 * n)) = omega arith in
    rw (word_sum-front x y p n, e)
      (let e1 : suc (suc (2 * n)) + 1 ≡ suc (suc (2 * n + 1)) = omega arith in rw e1 (omega arith))

-- The loop of `checksum` over a prefix of whole words.
pub sum_words-take :
    (p : List ℕ) (n : ℕ) → 2 * n ≤ length p → sum_words 0 (take (2 * n) p) ≡ word_sum p n
unfolding sum_words word_sum
sum_words-take p zero h = refl
sum_words-take [] (suc n) h = absurd (omega arith)
sum_words-take (x ∷ []) (suc n) h = absurd (omega arith)
sum_words-take (x ∷ y ∷ p) (suc n) h =
    let e : 2 * suc n ≡ suc (suc (2 * n)) = omega arith in
    rw e (
      omega (
        arith,
        sum_words-acc (0 + (x * 256 + y)) (take (2 * n) p),
        sum_words-take p n (omega arith),
        word_sum-front x y p n,
      ))

pub word_sum-congr :
    (p q : List ℕ) (n : ℕ)
    → ((i : ℕ) → i < n → u16_at q (2 * i) ≡ u16_at p (2 * i))
    → word_sum q n ≡ word_sum p n
unfolding word_sum
word_sum-congr p q zero h = refl
word_sum-congr p q (suc n) h =
    omega (arith, h n (omega arith), word_sum-congr p q n (λ i lt. h i (omega arith)))

pub word_sum-le : (p : List ℕ) (n : ℕ) → AllBytes p → word_sum p n ≤ n * 65535
unfolding word_sum
word_sum-le p zero all = omega arith
word_sum-le p (suc n) all = omega (arith, u16_at-lt p (2 * n) all, word_sum-le p n all)

-- A write of a word that stands beyond the sum does not count.
word_sum-put_beyond :
    (p : List ℕ) (k v n : ℕ)
    → 2 * k + 1 < length p
    → n ≤ k
    → word_sum (put_u16 p (2 * k) v) n ≡ word_sum p n
word_sum-put_beyond p k v n len le =
    word_sum-congr p (put_u16 p (2 * k) v) n
      (λ i lt. u16_at-put_u16_ne p (2 * k) (2 * i) v len (inl (omega arith)))

-- A write within the sum replaces one word by another.
pub word_sum-put :
    (p : List ℕ) (k v n : ℕ)
    → 2 * k + 1 < length p
    → k < n
    → word_sum (put_u16 p (2 * k) v) n + u16_at p (2 * k) ≡ word_sum p n + v
unfolding word_sum
word_sum-put p k v zero len lt = absurd (omega arith)
word_sum-put p k v (suc n) len lt = elim (Bool-cases (nat_beq k n)) [
  | inl here ↦
      let same : n ≡ k = ground arith in
      rw same (
        omega
          (arith, word_sum-put_beyond p k v k len (omega arith), u16_at-put_u16 p (2 * k) v len))
  | inr there ↦
      let apart : k ≢ n = ground arith in
      omega (
        arith,
        word_sum-put p k v n len (omega arith),
        u16_at-put_u16_ne p (2 * k) (2 * n) v len (inr (omega arith)),
      )
]

-- An address is written as its two words.
pub put_addr-words :
    (p : List ℕ) (at : ℕ) (n : Ipv4Addr)
    → IsAddr n
    → put_addr p at n ≡ put_u16 (put_u16 p at (high n)) (at + 2) (low n)
unfolding put_addr put_u16
put_addr-words p at n v =
    let e1 : high n / 256 ≡ n.a = omega arith in
    let e2 : high n % 256 ≡ n.b = omega arith in
    let e3 : low n / 256 ≡ n.c = omega arith in
    let e4 : low n % 256 ≡ n.d = omega arith in
    let e5 : at + 2 + 1 ≡ at + 3 = omega arith in rw (e1, e2, e3, e4, e5)
