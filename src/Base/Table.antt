-- ===== src/Base/Table.antt =====
-- Rust's `HashMap` and `HashSet` as association lists without repeated keys: `insert` replaces,
-- `remove` and `retain` filter. The order of the entries is that of insertion; the modelled
-- code never depends on the order.
use tunnel_rs.Base.Tests.{if◌then◌else◌, Eq, ◌==◌, ◌>>=◌}
use tunnel_rs.Base.Lists.{length}
use Prim.Native.Nat.{◌+◌, ◌≤◌}
use mathlib.Core.Path.{◌≡◌, refl}
use mathlib.Core.Bool.{Bool, true, false}
use mathlib.Core.List.{List, [], ◌∷◌}
use mathlib.Core.Logic.{◌≢◌}
use mathlib.Core.Option.{Option, none, some}
use native.Mathlib.Omega.{arith}

abbrev pub Table {ℓ} : Type ℓ → Type ℓ → Type ℓ
Table K V = List (K × V)

module _ {ℓ} {K V : Type ℓ} ⦃e : Eq K⦄ where
  -- `get`
  unfoldable pub find : K → Table K V → Option V
  find k [] = none
  find k ((j, v) ∷ m) = if j == k then some v else find k m

  -- `contains_key`
  unfoldable pub contains : K → Table K V → Bool
  contains k [] = false
  contains k ((j, v) ∷ m) = if j == k then true else contains k m

  unfoldable pub insert : K → V → Table K V → Table K V
  insert k v [] = (k, v) ∷ []
  insert k v ((j, w) ∷ m) = if j == k then (k, v) ∷ m else (j, w) ∷ insert k v m

  unfoldable pub remove : K → Table K V → Table K V
  remove k [] = []
  remove k ((j, w) ∷ m) = if j == k then remove k m else (j, w) ∷ remove k m

  -- `retain`
  unfoldable pub retain : (K → V → Bool) → Table K V → Table K V
  retain p [] = []
  retain p ((j, w) ∷ m) = if p j w then (j, w) ∷ retain p m else retain p m

  -- No key stands twice, as in every `HashMap`.
  abbrev pub Distinct : Table K V → Type ℓ
  Distinct [] = Unit
  Distinct ((j, w) ∷ m) = (find j m ≡ none) × Distinct m

pub ==_refl {ℓ} : {K : Type ℓ} ⦃e : Eq K⦄ (k : K) → (k == k) ≡ true
==_refl ⦃e⦄ k = (e.beq_iff k k).1 refl

module _ {ℓ} {K V : Type ℓ} ⦃e : Eq K⦄ where
  pub contains-find : (k : K) (m : Table K V) → contains k m ≡ false → find k m ≡ none
  unfolding contains find
  contains-find k [] h = refl
  contains-find k ((j, w) ∷ m) h = ground (arith, contains-find k m)

  pub find-contains : (k : K) (m : Table K V) → contains k m ≡ true → find k m ≢ none
  unfolding contains find
  find-contains k [] h = cc
  find-contains k ((j, w) ∷ m) h = ground (arith, find-contains k m)

  pub find-insert :
      (k j : K) (v : V) (m : Table K V)
      → find j (insert k v m) ≡ (if k == j then some v else find j m)
  unfolding find insert
  find-insert k j v [] = refl
  find-insert k j v ((i, w) ∷ m) =
      ground (arith, e.beq_iff k j, e.beq_iff i k, e.beq_iff i j, find-insert k j v m)

  pub find-remove :
      (k j : K) (m : Table K V) → find j (remove k m) ≡ (if k == j then none else find j m)
  unfolding find remove
  find-remove k j [] = ground arith
  find-remove k j ((i, w) ∷ m) =
      ground (arith, e.beq_iff k j, e.beq_iff i k, e.beq_iff i j, find-remove k j m)

  pub find-retain-none :
      (p : K → V → Bool) (j : K) (m : Table K V) → find j m ≡ none → find j (retain p m) ≡ none
  unfolding find retain
  find-retain-none p j [] h = refl
  find-retain-none p j ((i, w) ∷ m) h = ground (arith, find-retain-none p j m)

  -- `retain` keeps an entry exactly where the test holds.
  pub find-retain :
      (p : K → V → Bool) (j : K) (m : Table K V)
      → Distinct m
      → find j (retain p m) ≡ (find j m >>= λ v. if p j v then some v else none)
  unfolding find retain
  find-retain p j [] d = refl
  find-retain p j ((i, w) ∷ m) d =
      ground (arith, e.beq_iff i j, find-retain-none p j m, find-retain p j m d.1)

  pub insert-Distinct : (k : K) (v : V) (m : Table K V) → Distinct m → Distinct (insert k v m)
  unfolding insert find
  insert-Distinct k v [] d = (refl, tt)
  insert-Distinct k v ((i, w) ∷ m) d =
      ground (arith, e.beq_iff i k, e.beq_iff k i, find-insert k i v m, insert-Distinct k v m d.1)

  pub remove-Distinct : (k : K) (m : Table K V) → Distinct m → Distinct (remove k m)
  unfolding remove
  remove-Distinct k [] d = tt
  remove-Distinct k ((i, w) ∷ m) d = ground (arith, find-remove k i m, remove-Distinct k m d.1)

  pub retain-Distinct : (p : K → V → Bool) (m : Table K V) → Distinct m → Distinct (retain p m)
  unfolding retain
  retain-Distinct p [] d = tt
  retain-Distinct p ((i, w) ∷ m) d = ground (arith, find-retain-none p i m, retain-Distinct p m d.1)

  pub length-insert : (k : K) (v : V) (m : Table K V) → length (insert k v m) ≤ length m + 1
  unfolding insert
  length-insert k v [] = omega arith
  length-insert k v ((i, w) ∷ m) = ground (arith, length-insert k v m)

  pub length-insert_found :
      (k : K) (v : V) (m : Table K V) → find k m ≢ none → length (insert k v m) ≡ length m
  unfolding insert find
  length-insert_found k v [] h = absurd (h refl)
  length-insert_found k v ((i, w) ∷ m) h = ground (arith, length-insert_found k v m)

  pub length-remove : (k : K) (m : Table K V) → length (remove k m) ≤ length m
  unfolding remove
  length-remove k [] = omega arith
  length-remove k ((i, w) ∷ m) = ground (arith, length-remove k m)

  pub length-retain : (p : K → V → Bool) (m : Table K V) → length (retain p m) ≤ length m
  unfolding retain
  length-retain p [] = omega arith
  length-retain p ((i, w) ∷ m) = ground (arith, length-retain p m)
