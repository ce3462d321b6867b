-- ===== src/Prelude/Splits.antt =====
-- What `split_once` and `trim_end` make of texts put together.
use Prim.Native.Nat.{ℕ}
use mathlib.Core.Path.{◌≡◌, refl}
use mathlib.Core.Logic.{◌≢◌}
use mathlib.Core.Bool.{false}
use mathlib.Core.Option.{none, some}
use mathlib.Core.List.{[], ◌∷◌, ◌++◌}
use native.Mathlib.Omega.{arith}
use tryxctl.Prelude.Lists.{All}
use tryxctl.Prelude.Words.{Bytes, starts_with}
use tryxctl.Prelude.Text.{split_once, is_whitespace, keep_unless_blank, trim_end}

-- The first separator splits, if there is none in front of it.
pub split_once-separated :
    (sep : ℕ) (a b : Bytes)
    → All (λ c. c ≢ sep) a
    → split_once (a ++ (sep ∷ b)) (sep ∷ []) ≡ some (a, b)
unfolding split_once starts_with
split_once-separated sep [] b h = ground arith
split_once-separated sep (c ∷ a) b h = ground (arith, h.0, split_once-separated sep a b h.1)

pub split_once_without :
    (sep : ℕ) (a : Bytes) → All (λ c. c ≢ sep) a → split_once a (sep ∷ []) ≡ none
unfolding split_once starts_with
split_once_without sep [] h = refl
split_once_without sep (c ∷ a) h = ground (arith, h.0, split_once_without sep a h.1)

pub trim_end-solid : (a : Bytes) → All (λ c. is_whitespace c ≡ false) a → trim_end a ≡ a
unfolding trim_end keep_unless_blank
trim_end-solid [] h = refl
trim_end-solid (c ∷ []) h = ground (arith, h.0)
trim_end-solid (c ∷ d ∷ a) h = simp (trim_end-solid (d ∷ a) h.1) refl

pub trim_end-append :
    (a : Bytes) (c : ℕ) (b : Bytes)
    → trim_end (c ∷ b) ≡ c ∷ b
    → trim_end (a ++ (c ∷ b)) ≡ a ++ (c ∷ b)
unfolding trim_end keep_unless_blank
trim_end-append [] c b h = h
trim_end-append (x ∷ []) c b h = simp h refl
trim_end-append (x ∷ y ∷ a) c b h = simp (trim_end-append (y ∷ a) c b h) refl
