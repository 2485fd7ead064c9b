-- ===== src/Base/Text.antt =====
-- `std::string` is a list of bytes; its `==` and `<` are `beq` and `blt`.
use Prim.Native.Nat.{ℕ}
use Prim.Native.Char.{code}
use Prim.Native.String.{String}
use mathlib.Core.Path.{◌≡◌}
use mathlib.Core.Logic.{◌↔◌}
use mathlib.Core.Bool.{Bool, true, false, ◌&&◌, ◌||◌}
use mathlib.Core.List.{List, [], ◌∷◌}
use native.Mathlib.Omega.{arith}
use device.Base.Tests.{ltb, ◌==◌}

abbrev pub Bytes : Type 0
Bytes = List ℕ

-- A literal of the source, which is ASCII. It stays shut in proofs, and is unfolded in tests.
unfoldable pub text : String → Bytes
text String.[] = []
text (String.◌∷◌ c s) = code c ∷ text s

unfoldable pub beq : Bytes → Bytes → Bool
beq [] [] = true
beq [] (d ∷ t) = false
beq (c ∷ s) [] = false
beq (c ∷ s) (d ∷ t) = c == d && beq s t

pub beq_iff : (s t : Bytes) → (beq s t ≡ true) ↔ (s ≡ t)
unfolding beq
beq_iff [] [] = ground arith
beq_iff [] (d ∷ t) = ground arith
beq_iff (c ∷ s) [] = ground arith
beq_iff (c ∷ s) (d ∷ t) = ground (arith, beq_iff s t)

-- Lexicographic order.
unfoldable pub blt : Bytes → Bytes → Bool
blt [] [] = false
blt [] (d ∷ t) = true
blt (c ∷ s) [] = false
blt (c ∷ s) (d ∷ t) = ltb c d || (c == d && blt s t)

abbrev pub sp : ℕ
sp = b' '

abbrev pub newline : ℕ
newline = 10
