-- ===== src/Prelude/Digits.antt =====
-- Digits read back: decimal and hexadecimal texts determine their numbers.
use tryxctl.Prelude.Tests.{ltb, if◌then◌else◌}
use tryxctl.Prelude.Lists.{length, drop, All, All-append}
use tryxctl.Prelude.Words.{Bytes}
use Prim.Native.Nat.{ℕ, zero, suc, ◌+◌, ◌-◌, ◌*◌, ◌/◌, ◌%◌, ◌≤◌, ◌<◌}
use mathlib.Core.Path.{◌≡◌, refl, sym, ap, ◌∙◌}
use mathlib.Core.Logic.{◌≢◌, ◌⊎◌, inl, inr}
use mathlib.Core.List.{[], ◌∷◌, ◌++◌}
use native.Mathlib.Omega.{arith}
use tryxctl.Prelude.Tests.{Bool-cases}
use tryxctl.Prelude.Text.{
  decimal_loop, to_decimal, digit, hex_loop, to_hex, zeros, to_padded_hex, lower, to_lowercase,
}

-- A digit as the programs print them: not a separator, and in lower case.
abbrev pub IsDigit : ℕ → Type 0
IsDigit c = ((48 ≤ c) × (c ≤ 57)) ⊎ ((97 ≤ c) × (c ≤ 102))

digit_value : ℕ → ℕ
digit_value c = if ltb c 97 then c - 48 else c - 87

value : ℕ → ℕ → Bytes → ℕ
unfolding digit_value
value radix n [] = n
value radix n (c ∷ cs) = value radix (n * radix + digit_value c) cs

value-append :
    (radix n : ℕ) (cs : Bytes) (c : ℕ)
    → value radix n (cs ++ (c ∷ [])) ≡ value radix n cs * radix + digit_value c
unfolding value
value-append radix n [] c = refl
value-append radix n (d ∷ cs) c = value-append radix (n * radix + digit_value d) cs c

decimal_loop-value : (fuel n : ℕ) → n ≤ fuel → value 10 0 (decimal_loop fuel n) ≡ n
unfolding decimal_loop value digit_value
decimal_loop-value zero n h = ground arith
decimal_loop-value (suc fuel) n h = elim (Bool-cases (ltb n 10)) [
  | inl small ↦ rw small (ground (arith, small))
  | inr big ↦
      let rest = decimal_loop-value fuel (n / 10) (ground (arith, big)) in
      rw big (value-append 10 0 (decimal_loop fuel (n / 10)) (48 + n % 10) ∙ ground (arith, rest))
]

decimal_loop-AreDigits : (fuel n : ℕ) → All IsDigit (decimal_loop fuel n)
unfolding decimal_loop
decimal_loop-AreDigits zero n = (inl (omega arith, omega arith), tt)
decimal_loop-AreDigits (suc fuel) n = elim (Bool-cases (ltb n 10)) [
  | inl small ↦ rw small (inl (omega arith, ground (arith, small)), tt)
  | inr big ↦ rw big (
      All-append IsDigit (decimal_loop fuel (n / 10)) _ (decimal_loop-AreDigits fuel (n / 10))
        (inl (omega arith, omega arith), tt))
]

hex_loop-value : (fuel n : ℕ) → n ≤ fuel → value 16 0 (hex_loop fuel n) ≡ n
unfolding hex_loop value digit_value digit
hex_loop-value zero n h = ground arith
hex_loop-value (suc fuel) n h = elim (Bool-cases (ltb n 16)) [
  | inl small ↦ rw small (ground (arith, small))
  | inr big ↦
      let rest = hex_loop-value fuel (n / 16) (ground (arith, big)) in
      rw big (value-append 16 0 (hex_loop fuel (n / 16)) (digit (n % 16)) ∙ ground (arith, rest))
]

digit-IsDigit : (d : ℕ) → d < 16 → IsDigit (digit d)
unfolding digit
digit-IsDigit d h = ground (arith, h)

hex_loop-AreDigits : (fuel n : ℕ) → All IsDigit (hex_loop fuel n)
unfolding hex_loop
hex_loop-AreDigits zero n = (digit-IsDigit (n % 16) (omega arith), tt)
hex_loop-AreDigits (suc fuel) n = elim (Bool-cases (ltb n 16)) [
  | inl small ↦ rw small (digit-IsDigit n (ground (arith, small)), tt)
  | inr big ↦ rw big (
      All-append IsDigit (hex_loop fuel (n / 16)) _ (hex_loop-AreDigits fuel (n / 16))
        (digit-IsDigit (n % 16) (omega arith), tt))
]

zeros-value : (k : ℕ) (cs : Bytes) → value 16 0 (zeros k ++ cs) ≡ value 16 0 cs
unfolding value zeros digit_value
zeros-value zero cs = refl
zeros-value (suc k) cs = zeros-value k cs

pub zeros-AreDigits : (k : ℕ) → All IsDigit (zeros k)
unfolding zeros
zeros-AreDigits zero = tt
zeros-AreDigits (suc k) = (inl (omega arith, omega arith), zeros-AreDigits k)

pub to_decimal-AreDigits : (n : ℕ) → All IsDigit (to_decimal n)
unfolding to_decimal
to_decimal-AreDigits n = decimal_loop-AreDigits n n

pub to_decimal-injective : (m n : ℕ) → to_decimal m ≡ to_decimal n → m ≡ n
unfolding to_decimal
to_decimal-injective m n h =
    sym (decimal_loop-value m m (omega arith))
    ∙ ap (value 10 0) h
    ∙ decimal_loop-value n n (omega arith)

pub to_padded_hex-AreDigits : (width n : ℕ) → All IsDigit (to_padded_hex width n)
unfolding to_padded_hex to_hex
to_padded_hex-AreDigits width n =
    All-append IsDigit (zeros (width - length (hex_loop n n))) (hex_loop n n) (zeros-AreDigits _)
      (hex_loop-AreDigits n n)

to_padded_hex-value : (width n : ℕ) → value 16 0 (to_padded_hex width n) ≡ n
unfolding to_padded_hex to_hex
to_padded_hex-value width n =
    zeros-value (width - length (hex_loop n n)) (hex_loop n n) ∙ hex_loop-value n n (omega arith)

pub to_padded_hex-injective :
    (width m n : ℕ) → to_padded_hex width m ≡ to_padded_hex width n → m ≡ n
to_padded_hex-injective width m n h =
    sym (to_padded_hex-value width m) ∙ ap (value 16 0) h ∙ to_padded_hex-value width n

pub to_lowercase-append : (a b : Bytes) → to_lowercase (a ++ b) ≡ to_lowercase a ++ to_lowercase b
unfolding to_lowercase
to_lowercase-append [] b = refl
to_lowercase-append (c ∷ a) b = ap (◌∷◌ (lower c)) (to_lowercase-append a b)

pub to_lowercase-digits : (a : Bytes) → All IsDigit a → to_lowercase a ≡ a
unfolding to_lowercase lower
to_lowercase-digits [] h = refl
to_lowercase-digits (c ∷ a) h = ground (arith, h.0, to_lowercase-digits a h.1)

-- What stands before the first separator determines itself and the rest.
pub before-injective :
    (sep : ℕ) (a b x y : Bytes)
    → All (λ c. c ≢ sep) a
    → All (λ c. c ≢ sep) b
    → a ++ (sep ∷ x) ≡ b ++ (sep ∷ y)
    → (a ≡ b) × (x ≡ y)
before-injective sep [] [] x y h k e = (refl, ground (arith, e))
before-injective sep [] (d ∷ b) x y h k e = absurd (ground (arith, k.0, e))
before-injective sep (c ∷ a) [] x y h k e = absurd (ground (arith, h.0, e))
before-injective sep (c ∷ a) (d ∷ b) x y h k e =
    let (same, rest) = before-injective sep a b x y h.1 k.1 (ap (drop 1) e) in
    (ground (arith, same, e), rest)
