-- ===== src/Media/Transform/Modes.antt =====
-- The names of modes.
use tryxctl.Prelude.{◌≡◌, ◌↔◌, refl, some, Bytes, equal_iff, equal, arith}
use tryxctl.Prelude.Text.{codes, to_lowercase, lower}
use tryxctl.Media.Transform.{Mode, fit, fill, crop, stretch, parse, mode_name}

-- A text is parsed as a mode exactly if it spells the mode's name, whatever the case of its letters.
pub parse_iff :
    (text : Bytes) (m : Mode)
    → (parse text ≡ some m) ↔ (to_lowercase text ≡ to_lowercase (mode_name m))
unfolding parse mode_name to_lowercase lower equal
parse_iff text fit = (
  (λ h. ground (
    arith,
    h,
    equal_iff (to_lowercase text) (codes "fit"),
    equal_iff (to_lowercase text) (codes "fill"),
    equal_iff (to_lowercase text) (codes "crop"),
    equal_iff (to_lowercase text) (codes "stretch"),
  )),
  (λ h. rw h refl),
)
parse_iff text fill = (
  (λ h. ground (
    arith,
    h,
    equal_iff (to_lowercase text) (codes "fit"),
    equal_iff (to_lowercase text) (codes "fill"),
    equal_iff (to_lowercase text) (codes "crop"),
    equal_iff (to_lowercase text) (codes "stretch"),
  )),
  (λ h. rw h refl),
)
parse_iff text crop = (
  (λ h. ground (
    arith,
    h,
    equal_iff (to_lowercase text) (codes "fit"),
    equal_iff (to_lowercase text) (codes "fill"),
    equal_iff (to_lowercase text) (codes "crop"),
    equal_iff (to_lowercase text) (codes "stretch"),
  )),
  (λ h. rw h refl),
)
parse_iff text stretch = (
  (λ h. ground (
    arith,
    h,
    equal_iff (to_lowercase text) (codes "fit"),
    equal_iff (to_lowercase text) (codes "fill"),
    equal_iff (to_lowercase text) (codes "crop"),
    equal_iff (to_lowercase text) (codes "stretch"),
  )),
  (λ h. rw h refl),
)
