-- ===== src/Prelude/Numbers.antt =====
-- Rust's `str::parse` for unsigned integers, on the bytes of a text.
use Prim.Native.Nat.{ℕ, zero, suc, ◌+◌, ◌-◌, ◌*◌, ◌/◌, ◌%◌, ◌≤◌, ◌<◌}
use mathlib.Core.Path.{◌≡◌, refl, ap, ◌∙◌}
use mathlib.Core.Logic.{inl, inr}
use mathlib.Core.Bool.{◌&&◌}
use mathlib.Core.Option.{Option, none, some}
use mathlib.Core.List.{[], ◌∷◌, ◌++◌}
use native.Mathlib.Omega.{arith}
use tryxctl.Prelude.Tests.{◌==◌, leb, ltb, if◌then◌else◌, Bool-cases}
use tryxctl.Prelude.Lists.{All, All-append}
use tryxctl.Prelude.Words.{Bytes}
use tryxctl.Prelude.Text.{decimal_loop, to_decimal, zeros}
use tryxctl.Prelude.Digits.{IsDigit, to_decimal-AreDigits, zeros-AreDigits}

-- One digit more, if the number still fits below the bound.
parse_digit : ℕ → Option ℕ → ℕ → Option ℕ
parse_digit bound none c = none
parse_digit bound (some n) c =
    if leb 48 c && leb c 57 && ltb (n * 10 + (c - 48)) bound then some (n * 10 + (c - 48)) else none

digits_loop : ℕ → Option ℕ → Bytes → Option ℕ
unfolding parse_digit
digits_loop bound n [] = n
digits_loop bound n (c ∷ cs) = digits_loop bound (parse_digit bound n c) cs

strip_plus : Bytes → Bytes
strip_plus [] = []
strip_plus (c ∷ []) = c ∷ []
strip_plus (c ∷ d ∷ cs) = if c == 43 then d ∷ cs else c ∷ d ∷ cs

parse_some : ℕ → Bytes → Option ℕ
unfolding digits_loop
parse_some bound [] = none
parse_some bound (c ∷ cs) = digits_loop bound (some 0) (c ∷ cs)

-- `text.parse::<u8>().ok()` at bound 256: digits, behind at most one plus sign.
unfoldable pub parse_unsigned : ℕ → Bytes → Option ℕ
unfolding parse_some strip_plus
parse_unsigned bound text = parse_some bound (strip_plus text)

hex_value : ℕ → Option ℕ
hex_value c =
    if leb 48 c && leb c 57
    then some (c - 48)
    else if leb 97 c && leb c 102
    then some (c - 87)
    else if leb 65 c && leb c 70
    then some (c - 55)
    else none

add_hex : ℕ → Option ℕ → Option ℕ → Option ℕ
add_hex bound (some n) (some d) = if ltb (n * 16 + d) bound then some (n * 16 + d) else none
add_hex bound _ _ = none

hex_digits : ℕ → Option ℕ → Bytes → Option ℕ
unfolding add_hex hex_value
hex_digits bound n [] = n
hex_digits bound n (c ∷ cs) = hex_digits bound (add_hex bound n (hex_value c)) cs

hex_some : ℕ → Bytes → Option ℕ
unfolding hex_digits
hex_some bound [] = none
hex_some bound (c ∷ cs) = hex_digits bound (some 0) (c ∷ cs)

-- `u16::from_str_radix(text, 16).ok()` at bound 65536.
unfoldable pub parse_hex : ℕ → Bytes → Option ℕ
unfolding hex_some strip_plus
parse_hex bound text = hex_some bound (strip_plus text)

digits_loop-append :
    (bound : ℕ) (n : Option ℕ) (cs : Bytes) (c : ℕ)
    → digits_loop bound n (cs ++ (c ∷ [])) ≡ parse_digit bound (digits_loop bound n cs) c
unfolding digits_loop
digits_loop-append bound n [] c = refl
digits_loop-append bound n (d ∷ cs) c = digits_loop-append bound (parse_digit bound n d) cs c

digits_loop-decimal_loop :
    (bound fuel n : ℕ)
    → n ≤ fuel
    → n < bound
    → digits_loop bound (some 0) (decimal_loop fuel n) ≡ some n
unfolding decimal_loop digits_loop parse_digit
digits_loop-decimal_loop bound zero n h k = ground (arith, h, k)
digits_loop-decimal_loop bound (suc fuel) n h k = elim (Bool-cases (ltb n 10)) [
  | inl small ↦ rw small (ground (arith, small, k))
  | inr big ↦
      let rest =
        digits_loop-decimal_loop bound fuel (n / 10) (ground (arith, big, h)) (omega (arith, k)) in
      rw big (
        digits_loop-append bound (some 0) (decimal_loop fuel (n / 10)) (48 + n % 10)
        ∙ rw rest (ground (arith, k)))
]

strip_plus-digits : (text : Bytes) → All IsDigit text → strip_plus text ≡ text
unfolding strip_plus
strip_plus-digits [] h = refl
strip_plus-digits (c ∷ []) h = refl
strip_plus-digits (c ∷ d ∷ cs) h = ground (arith, h.0)

decimal_loop_non_empty :
    (bound fuel n : ℕ)
    → parse_some bound (decimal_loop fuel n) ≡ digits_loop bound (some 0) (decimal_loop fuel n)
unfolding parse_some decimal_loop
decimal_loop_non_empty bound zero n = refl
decimal_loop_non_empty bound (suc fuel) n = elim (Bool-cases (ltb n 10)) [
  | inl small ↦ rw small refl
  | inr big ↦ rw big (append_non_empty bound (decimal_loop fuel (n / 10)) _)
]
  where
    append_non_empty :
        (bound : ℕ) (cs : Bytes) (c : ℕ)
        → parse_some bound (cs ++ (c ∷ [])) ≡ digits_loop bound (some 0) (cs ++ (c ∷ []))
    append_non_empty bound [] c = refl
    append_non_empty bound (d ∷ cs) c = refl

-- A number that fits is read back from its decimal digits.
pub parse_unsigned-to_decimal :
    (bound n : ℕ) → n < bound → parse_unsigned bound (to_decimal n) ≡ some n
unfolding parse_unsigned to_decimal
parse_unsigned-to_decimal bound n h =
    rw (strip_plus-digits (to_decimal n) (to_decimal-AreDigits n))
      (decimal_loop_non_empty bound n n ∙ digits_loop-decimal_loop bound n n (omega arith) h)

parse_digit_zero : (bound : ℕ) → 0 < bound → parse_digit bound (some 0) 48 ≡ some 0
unfolding parse_digit
parse_digit_zero bound h = ground (arith, h)

digits_loop-zeros :
    (bound k : ℕ) (text : Bytes)
    → 0 < bound
    → digits_loop bound (some 0) (zeros k ++ text) ≡ digits_loop bound (some 0) text
unfolding digits_loop zeros
digits_loop-zeros bound zero text h = refl
digits_loop-zeros bound (suc k) text h =
    ap (λ (n : Option ℕ). digits_loop bound n (zeros k ++ text)) (parse_digit_zero bound h)
    ∙ digits_loop-zeros bound k text h

parse_some-zeros : (bound k n : ℕ) → n < bound → parse_some bound (zeros k ++ to_decimal n) ≡ some n
unfolding to_decimal zeros parse_some
parse_some-zeros bound zero n h =
    decimal_loop_non_empty bound n n ∙ digits_loop-decimal_loop bound n n (omega arith) h
parse_some-zeros bound (suc k) n h =
    digits_loop-zeros bound (suc k) (decimal_loop n n) (omega (arith, h))
    ∙ digits_loop-decimal_loop bound n n (omega arith) h

-- Zeros in front do not count.
pub parse_unsigned-zeros :
    (bound k n : ℕ) → n < bound → parse_unsigned bound (zeros k ++ to_decimal n) ≡ some n
unfolding parse_unsigned
parse_unsigned-zeros bound k n h =
    rw
      (strip_plus-digits (zeros k ++ to_decimal n)
        (All-append IsDigit (zeros k) (to_decimal n) (zeros-AreDigits k) (to_decimal-AreDigits n)))
      (parse_some-zeros bound k n h)
