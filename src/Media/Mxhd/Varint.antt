-- ===== src/Media/Mxhd/Varint.antt =====
-- Variable-length integers of the media header.
use tryxctl.Prelude.{
  ℕ, zero, suc, ◌+◌, ◌*◌, ◌/◌, ◌%◌, ◌^◌, ◌≤◌, ◌<◌, ◌≡◌, refl, ap, ◌∙◌, some, [], ◌∷◌, ◌++◌, arith,
  length, Bytes, AreBytes,
}
use native.Mathlib.Decide.{dec_lt}
use native.Mathlib.Nat.{div-add-mod}
use native.Mathlib.Numerals.{towards_suc}
use tryxctl.Media.Mxhd.{varint_loop, varint, read_varint_loop, read_varint}

last_byte :
    (fuel w value shift : ℕ) (rest : Bytes)
    → w < 128
    → value + w * 2 ^ shift < 2 ^ 64
    → read_varint_loop (suc fuel) (w % 256 ∷ rest) value shift ≡ some (value + w * 2 ^ shift, rest)
unfolding read_varint_loop
last_byte fuel w value shift rest hw fits = ground arith

inner_byte :
    (fuel g value shift : ℕ) (rest : Bytes)
    → g < 128
    → shift < 63
    → shift + 7 ≤ 63
    → value + g * 2 ^ shift < 2 ^ 64
    → read_varint_loop (suc fuel) ((g + 128) ∷ rest) value shift
      ≡ read_varint_loop fuel rest (value + g * 2 ^ shift) (shift + 7)
unfolding read_varint_loop
inner_byte fuel g value shift rest hg hs hr fits = ground arith

power_shift : (s : ℕ) → 2 ^ (s + 7) ≡ 2 ^ s * 128
power_shift s = simp towards_suc (omega arith)

-- The low group and the others, each at its place, add up to the whole.
groups_joined : (v w s : ℕ) → v + w % 128 * 2 ^ s + w / 128 * 2 ^ (s + 7) ≡ v + w * 2 ^ s
groups_joined v w s =
    let whole = ap (λ (n : ℕ). n * 2 ^ s) (div-add-mod w 128) in
    rw (power_shift s) (omega (arith, whole))

varint_loop-more :
    (k w : ℕ) → 128 ≤ w → varint_loop (suc k) w ≡ (w % 128 + 128) ∷ varint_loop k (w / 128)
unfolding varint_loop
varint_loop-more k w h = ground arith

varint_loop-last : (k w : ℕ) → w < 128 → varint_loop k w ≡ w % 256 ∷ []
unfolding varint_loop
varint_loop-last zero w h = refl
varint_loop-last (suc k) w h = ground arith

-- `w` is what is still to be read, and stands from bit `shift` on.
read_varint_loop-varint :
    (k fuel w value shift : ℕ) (rest : Bytes)
    → w < 128 ^ suc k
    → k < fuel
    → shift + 7 * k ≤ 63
    → value + w * 2 ^ shift < 2 ^ 64
    → read_varint_loop fuel (varint_loop k w ++ rest) value shift
      ≡ some (value + w * 2 ^ shift, rest)
read_varint_loop-varint k zero w value shift rest hw hf hs fits = absurd (omega arith)
read_varint_loop-varint zero (suc fuel) w value shift rest hw hf hs fits =
    rw (varint_loop-last zero w (omega arith))
      (last_byte fuel w value shift rest (omega arith) fits)
read_varint_loop-varint (suc k) (suc fuel) w value shift rest hw hf hs fits =
    let low = w % 128 in
    let joined = groups_joined value w shift in
    elim (dec_lt w 128) [
      | no more ↦ rw (varint_loop-more k w (omega arith)) (
          inner_byte fuel low value shift (varint_loop k (w / 128) ++ rest) (omega arith)
            (omega arith) (omega arith) (omega arith)
          ∙ read_varint_loop-varint k fuel (w / 128) (value + low * 2 ^ shift) (shift + 7) rest
              (omega arith) (omega arith) (omega arith) (omega arith)
          ∙ ap (λ t. some (t, rest)) joined)
      | yes small ↦
          rw (varint_loop-last (suc k) w small) (last_byte fuel w value shift rest small fits)
    ]

at_zero : (v : ℕ) → 0 + v * 2 ^ 0 ≡ v
at_zero v = omega arith

-- Reading gets back every 64-bit value that was written, and stops where its bytes end.
pub read_varint-varint :
    (value : ℕ) (rest : Bytes)
    → value < 2 ^ 64
    → read_varint (varint value ++ rest) ≡ some (value, rest)
unfolding read_varint varint
read_varint-varint value rest h =
    read_varint_loop-varint 9 10 value 0 0 rest (omega arith) (omega arith) (omega arith)
      (omega arith)
    ∙ ap (λ t. some (t, rest)) (at_zero value)

varint_loop-AreBytes : (fuel value : ℕ) → AreBytes (varint_loop fuel value)
unfolding varint_loop
varint_loop-AreBytes zero value = omega arith
varint_loop-AreBytes (suc fuel) value = ground (arith, varint_loop-AreBytes fuel (value / 128))

pub length-varint_loop :
    (fuel value : ℕ)
    → (1 ≤ length (varint_loop fuel value)) × (length (varint_loop fuel value) ≤ suc fuel)
unfolding varint_loop
length-varint_loop zero value = omega arith
length-varint_loop (suc fuel) value = ground (arith, length-varint_loop fuel (value / 128))

read_varint_loop-shorter :
    (fuel : ℕ) (bytes : Bytes) (value shift v : ℕ) (rest : Bytes)
    → read_varint_loop fuel bytes value shift ≡ some (v, rest)
    → length rest < length bytes
unfolding read_varint_loop
read_varint_loop-shorter zero bytes value shift v rest h = cc
read_varint_loop-shorter (suc fuel) [] value shift v rest h = cc
read_varint_loop-shorter (suc fuel) (b ∷ bytes) value shift v rest h = ground (
  arith,
  read_varint_loop-shorter fuel bytes (value + b % 128 * 2 ^ shift % 2 ^ 64) (shift + 7) v rest,
)

-- A value that is read has taken a byte at least.
pub read_varint-shorter :
    (bytes : Bytes) (v : ℕ) (rest : Bytes)
    → read_varint bytes ≡ some (v, rest)
    → length rest < length bytes
unfolding read_varint
read_varint-shorter bytes v rest = read_varint_loop-shorter 10 bytes 0 0 v rest
