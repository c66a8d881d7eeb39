-- ===== src/Prelude/Text.antt =====
-- Byte strings. A `char` is read as its value from 0 to 255; a literal is ASCII.
use Prim.Native.Char.{code}
use Prim.Native.Nat.{ℕ}
use Prim.Native.String.{String}
use mathlib.Core.Bool.{Bool, true, false, ◌&&◌}
use mathlib.Core.List.{List, [], ◌∷◌}
use mathlib.Core.Logic.{◌↔◌}
use mathlib.Core.Path.{◌≡◌}
use native.Mathlib.Omega.{arith}
use telling.Prelude.Tests.{◌==◌, if◌then◌else◌}

abbrev pub Bytes : Type 0
Bytes = List ℕ

-- The bytes of an ASCII literal.
abbrev pub codes : String → Bytes
codes String.[] = []
codes (String.◌∷◌ c s) = code c ∷ codes s

-- `operator==` of two string views.
unfoldable pub same_text : Bytes → Bytes → Bool
same_text [] [] = true
same_text (x ∷ xs) (y ∷ ys) = x == y && same_text xs ys
same_text _ _ = false

pub same_text_iff : (a b : Bytes) → (same_text a b ≡ true) ↔ (a ≡ b)
unfolding same_text
same_text_iff (x ∷ a) (y ∷ b) = ground (arith, same_text_iff a b)
same_text_iff _ _ = ground arith

-- Whether a byte occurs in a text.
unfoldable pub has_byte : ℕ → Bytes → Bool
has_byte c [] = false
has_byte c (x ∷ xs) = if x == c then true else has_byte c xs
