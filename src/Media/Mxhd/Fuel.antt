-- ===== src/Media/Mxhd/Fuel.antt =====
-- The header reader ends by its own tests.
use tryxctl.Prelude.{
  ℕ, zero, suc, ◌/◌, ◌≤◌, ◌<◌, ◌≡◌, refl, some, [], ◌∷◌, arith, length, Bytes, Option-cases, inl,
  inr, length-drop,
}
use tryxctl.Media.Mxhd.{Reader, read_varint, set_field, read_field, header_loop}
use tryxctl.Media.Mxhd.Varint.{read_varint-shorter}

read_field-le :
    (total tag : ℕ) (rest : Bytes) (r r' : Reader) (after : Bytes)
    → read_field total tag rest r ≡ some (r', after)
    → length after ≤ length rest
unfolding read_field
read_field-le total tag rest r r' after h = elim (Option-cases (read_varint rest)) [
  | inl e ↦ ground (arith, e)
  | inr ((v, left), e) ↦ elim (Option-cases (set_field (tag / 8) v r)) [
    | inl f ↦ ground (arith, e, f, read_varint-shorter rest v left e, length-drop v left)
    | inr (s, f) ↦ ground (arith, e, f, read_varint-shorter rest v left e, length-drop v left)
  ]
]

-- Any two amounts of fuel that reach the length of the input give the same answer.
pub header_loop_fuel :
    (f g total : ℕ) (bytes : Bytes) (r : Reader)
    → length bytes ≤ f
    → length bytes ≤ g
    → header_loop f total bytes r ≡ header_loop g total bytes r
unfolding header_loop
header_loop_fuel zero zero total [] r hf hg = refl
header_loop_fuel zero (suc g) total [] r hf hg = refl
header_loop_fuel (suc f) zero total [] r hf hg = refl
header_loop_fuel (suc f) (suc g) total [] r hf hg = refl
header_loop_fuel zero g total (b ∷ bytes) r hf hg = absurd (omega arith)
header_loop_fuel (suc f) zero total (b ∷ bytes) r hf hg = absurd (omega arith)
header_loop_fuel (suc f) (suc g) total (b ∷ bytes) r hf hg =
    elim (Option-cases (read_varint (b ∷ bytes))) [
      | inl e ↦ rw e
      | inr ((tag, rest), e) ↦ rw e (elim (Option-cases (read_field total tag rest r)) [
        | inl k ↦ rw k
        | inr ((r', after), k) ↦
            let small : length after < length (b ∷ bytes) = omega (
              arith,
              read_varint-shorter (b ∷ bytes) tag rest e,
              read_field-le total tag rest r r' after k,
            ) in
            rw k (header_loop_fuel f g total after r' (omega arith) (omega arith))
      ])
    ]
