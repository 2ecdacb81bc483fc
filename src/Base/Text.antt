-- ===== src/Base/Text.antt =====
-- Texts: the bytes of an ASCII literal, and the equality of texts as an instance.
use Prim.Native.String.{String}
use Prim.Native.Char.{code}
use Prim.Native.Nat.{ℕ}
use mathlib.Core.List.{List, [], ◌∷◌}
use text.Mathlib.Text.{◌==◌ as str_eq}
use text.Mathlib.TextEquality.{eq_iff}
use tunnel_rs.Base.Tests.{Eq}

abbrev pub codes : String → List ℕ
codes (String.◌∷◌ letter more) = code letter ∷ codes more
codes String.[] = []

instance abbrev pub string_eq : Eq String
string_eq = record { beq_iff = λ s t. eq_iff s t; beq = λ s t. str_eq s t }
