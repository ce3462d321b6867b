-- ===== src/Prelude/Words.antt =====
-- Bytes as numbers below 256, the little-endian and big-endian words, and slice tests.
use Prim.Native.Nat.{ℕ, ◌+◌, ◌*◌, ◌/◌, ◌%◌, ◌<◌}
use mathlib.Core.Path.{◌≡◌, refl}
use mathlib.Core.Logic.{◌↔◌}
use mathlib.Core.Bool.{Bool, true, false, ◌&&◌}
use mathlib.Core.List.{List, [], ◌∷◌}
use native.Mathlib.Omega.{arith}
use tryxctl.Prelude.Tests.{◌==◌}
use tryxctl.Prelude.Lists.{All}

abbrev pub Bytes : Type 0
Bytes = List ℕ

abbrev pub IsByte : ℕ → Type 0
IsByte b = b < 256

abbrev pub AreBytes : Bytes → Type 0
AreBytes = All IsByte

-- `u32::to_le_bytes`
abbrev pub to_le_bytes : ℕ → Bytes
to_le_bytes n = n % 256 ∷ n / 256 % 256 ∷ n / 65536 % 256 ∷ n / 16777216 % 256 ∷ []

-- `u32::from_le_bytes`
abbrev pub from_le_bytes : ℕ → ℕ → ℕ → ℕ → ℕ
from_le_bytes a b c d = a + 256 * b + 65536 * c + 16777216 * d

-- Slices compared by `==`.
unfoldable pub equal : Bytes → Bytes → Bool
equal [] [] = true
equal (x ∷ xs) (y ∷ ys) = x == y && equal xs ys
equal _ _ = false

-- `slice.starts_with(prefix)`
unfoldable pub starts_with : Bytes → Bytes → Bool
starts_with xs [] = true
starts_with [] (y ∷ ys) = false
starts_with (x ∷ xs) (y ∷ ys) = x == y && starts_with xs ys

equal_sound : (a b : Bytes) → equal a b ≡ true → a ≡ b
unfolding equal
equal_sound [] [] h = refl
equal_sound [] (y ∷ b) h = absurd (ground (arith, h))
equal_sound (x ∷ a) [] h = absurd (ground (arith, h))
equal_sound (x ∷ a) (y ∷ b) h = ground (arith, h, equal_sound a b)

pub equal_refl : (a : Bytes) → equal a a ≡ true
unfolding equal
equal_refl [] = refl
equal_refl (x ∷ a) = ground (arith, equal_refl a)

pub equal_iff : (a b : Bytes) → (equal a b ≡ true) ↔ (a ≡ b)
equal_iff a b = (equal_sound a b, λ e. rw e (equal_refl b))
