-- ===== src/Media/Transform/Canonical.antt =====
-- The canonical text of a transform, from which its fingerprint is made.
use tryxctl.Prelude.{
  ℕ, ◌≡◌, ◌≢◌, refl, sym, ap, ◌∙◌, [], ◌∷◌, ◌++◌, append-nil, All, drop, Bytes, arith,
}
use tryxctl.Prelude.Text.{to_decimal, to_padded_hex, to_lowercase, lower}
use tryxctl.Prelude.Digits.{
  IsDigit, to_decimal-AreDigits, to_decimal-injective, to_padded_hex-AreDigits,
  to_padded_hex-injective, to_lowercase-append, to_lowercase-digits, before-injective,
}
use tryxctl.Media.Transform.{Transform, Mode, fit, fill, crop, stretch, mode_name, canonical}
use tryxctl.Media.Transform.Modes.{parse_iff}

digits-plain : (a : Bytes) → All IsDigit a → All (λ c. c ≢ 59) a
digits-plain [] h = tt
digits-plain (c ∷ a) h = ((λ e. ground (arith, h.0, e)), digits-plain a h.1)

mode_name-plain : (m : Mode) → All (λ c. c ≢ 59) (to_lowercase (mode_name m))
unfolding to_lowercase lower mode_name
mode_name-plain fit = ground arith
mode_name-plain fill = ground arith
mode_name-plain crop = ground arith
mode_name-plain stretch = ground arith

-- A field of the text, up to its separator, is determined by the text.
cut :
    (p q u v : Bytes)
    → All (λ c. c ≢ 59) (to_lowercase p)
    → All (λ c. c ≢ 59) (to_lowercase q)
    → to_lowercase (p ++ (59 ∷ u)) ≡ to_lowercase (q ++ (59 ∷ v))
    → (to_lowercase p ≡ to_lowercase q) × (to_lowercase u ≡ to_lowercase v)
unfolding to_lowercase lower
cut p q u v h k e =
    before-injective 59 (to_lowercase p) (to_lowercase q) (to_lowercase u) (to_lowercase v) h k
      (sym (to_lowercase-append p (59 ∷ u)) ∙ e ∙ to_lowercase-append q (59 ∷ v))

cut_number :
    (m n : ℕ) (u v : Bytes)
    → to_lowercase (to_decimal m ++ (59 ∷ u)) ≡ to_lowercase (to_decimal n ++ (59 ∷ v))
    → (m ≡ n) × (to_lowercase u ≡ to_lowercase v)
cut_number m n u v e =
    let same = λ (k : ℕ). to_lowercase-digits (to_decimal k) (to_decimal-AreDigits k) in
    let plain = λ (k : ℕ). digits-plain (to_decimal k) (to_decimal-AreDigits k) in
    let (number, rest) =
      cut (to_decimal m) (to_decimal n) u v (rw (same m) (plain m)) (rw (same n) (plain n)) e in
    (to_decimal-injective m n (sym (same m) ∙ number ∙ same n), rest)

mode_name-injective : (a b : Mode) → to_lowercase (mode_name a) ≡ to_lowercase (mode_name b) → a ≡ b
mode_name-injective a b h =
    let first = (parse_iff (mode_name a) a).1 refl in
    let second = (parse_iff (mode_name a) b).1 h in ground (arith, first, second)

-- Transforms with the same canonical text are the same: a fingerprint stands for one transform, as
-- far as the hash does.
pub canonical-injective : (a b : Transform) → canonical a ≡ canonical b → a ≡ b
unfolding canonical to_lowercase lower
canonical-injective a b h =
    let (mode, h1) =
      cut (mode_name a.mode) (mode_name b.mode) _ _ (mode_name-plain a.mode)
        (mode_name-plain b.mode) (ap (drop 9) h) in
    let (turns, h2) =
      cut_number a.rotation_quarter_turns b.rotation_quarter_turns _ _ (ap (drop 9) h1) in
    let (zoom, h3) = cut_number a.zoom_permille b.zoom_permille _ _ (ap (drop 5) h2) in
    let (x, h4) = cut_number a.focus_x b.focus_x _ _ (ap (drop 8) h3) in
    let (y, h5) = cut_number a.focus_y b.focus_y _ _ (ap (drop 8) h4) in
    let hex = λ (n : ℕ). to_lowercase-digits (to_padded_hex 6 n) (to_padded_hex-AreDigits 6 n) in
    let tail : to_lowercase (to_padded_hex 6 a.background_rgb ++ [])
        ≡ to_lowercase (to_padded_hex 6 b.background_rgb ++ []) =
      ap (drop 11) h5 in
    let background = to_padded_hex-injective 6 a.background_rgb b.background_rgb (
      sym (hex a.background_rgb)
      ∙ ap to_lowercase (sym (append-nil (to_padded_hex 6 a.background_rgb)))
      ∙ tail
      ∙ ap to_lowercase (append-nil (to_padded_hex 6 b.background_rgb))
      ∙ hex b.background_rgb) in
    ground (arith, mode_name-injective a.mode b.mode mode, turns, zoom, x, y, background)
