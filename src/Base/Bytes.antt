-- ===== src/Base/Bytes.antt =====
-- Byte strings as lists of numbers: Rust's `[u8]`, with its big-endian reads and writes.
use tunnel_rs.Base.Tests.{nat_beq, if◌then◌else◌}
use tunnel_rs.Base.Lists.{length, get_or, set, length-set, get_or-set}
use Prim.Native.Nat.{ℕ, ◌+◌, ◌*◌, ◌/◌, ◌%◌, ◌<◌}
use mathlib.Core.Path.{◌≡◌, ◌∙◌}
use mathlib.Core.Logic.{◌⊎◌}
use mathlib.Core.List.{List}
use native.Mathlib.Omega.{arith}

-- `p[i]`. Every read of the model stands behind the length test of the source.
unfoldable pub byte : List ℕ → ℕ → ℕ
byte p i = get_or p i 0

-- `u16::from_be_bytes([p[i], p[i + 1]])`
unfoldable pub u16_at : List ℕ → ℕ → ℕ
unfolding byte
u16_at p i = byte p i * 256 + byte p (i + 1)

-- `p[i..i + 2].copy_from_slice(&v.to_be_bytes())`
unfoldable pub put_u16 : List ℕ → ℕ → ℕ → List ℕ
put_u16 p i v = set (set p i (v / 256)) (i + 1) (v % 256)

-- Every element is a byte.
abbrev pub AllBytes : List ℕ → Type 0
AllBytes p = (i : ℕ) → byte p i < 256

pub length-put_u16 : (p : List ℕ) (i v : ℕ) → length (put_u16 p i v) ≡ length p
unfolding put_u16
length-put_u16 p i v = length-set (set p i (v / 256)) (i + 1) (v % 256) ∙ length-set p i (v / 256)

pub byte-set :
    (p : List ℕ) (i j v : ℕ)
    → i < length p
    → byte (set p i v) j ≡ (if nat_beq i j then v else byte p j)
unfolding byte
byte-set p i j v h = get_or-set p i j v 0 h

-- A write of two bytes reaches those two alone.
pub byte-put_u16 :
    (p : List ℕ) (i j v : ℕ)
    → i + 1 < length p
    → byte (put_u16 p i v) j
      ≡ (if nat_beq (i + 1) j then v % 256 else (if nat_beq i j then v / 256 else byte p j))
unfolding put_u16
byte-put_u16 p i j v h = ground (
  arith,
  length-set p i (v / 256),
  byte-set (set p i (v / 256)) (i + 1) j (v % 256),
  byte-set p i j (v / 256),
)

pub byte-put_u16_ne :
    (p : List ℕ) (i j v : ℕ)
    → i + 1 < length p
    → (j < i) ⊎ (i + 1 < j)
    → byte (put_u16 p i v) j ≡ byte p j
byte-put_u16_ne p i j v h d = ground (arith, byte-put_u16 p i j v h)

pub u16_at-put_u16 : (p : List ℕ) (i v : ℕ) → i + 1 < length p → u16_at (put_u16 p i v) i ≡ v
unfolding u16_at
u16_at-put_u16 p i v h = ground (arith, byte-put_u16 p i i v h, byte-put_u16 p i (i + 1) v h)

pub u16_at-put_u16_ne :
    (p : List ℕ) (i j v : ℕ)
    → i + 1 < length p
    → (j + 1 < i) ⊎ (i + 1 < j)
    → u16_at (put_u16 p i v) j ≡ u16_at p j
unfolding u16_at
u16_at-put_u16_ne p i j v h d = ground (arith, byte-put_u16 p i j v h, byte-put_u16 p i (j + 1) v h)

pub u16_at-lt : (p : List ℕ) (i : ℕ) → AllBytes p → u16_at p i < 65536
unfolding u16_at
u16_at-lt p i h = omega (arith, h i, h (i + 1))

pub put_u16-AllBytes :
    (p : List ℕ) (i v : ℕ) → i + 1 < length p → v < 65536 → AllBytes p → AllBytes (put_u16 p i v)
put_u16-AllBytes p i v h lt all j = ground (arith, byte-put_u16 p i j v h, all j)
