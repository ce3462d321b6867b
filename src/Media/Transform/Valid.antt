-- ===== src/Media/Transform/Valid.antt =====
-- What `validate` accepts.
use tryxctl.Prelude.{◌≡◌, ◌↔◌, ◌≤◌, ◌⊎◌, ok, arith}
use tryxctl.Media.Transform
use tryxctl.Media.Transform.{Transform, Mode, fit, fill, crop, stretch, validate}

-- Every field in its range; a viewport is for Crop only, and a background for Fit only.
pub record IsValid (t : Transform) : Type 0 where
  pub turns : t.rotation_quarter_turns ≤ 3
  pub zoom_low : 1000 ≤ t.zoom_permille
  pub zoom_high : t.zoom_permille ≤ 4000
  pub across : t.focus_x ≤ 10000
  pub down : t.focus_y ≤ 10000
  pub colour : t.background_rgb ≤ 0xFFFFFF
  pub viewport :
      (t.mode ≡ crop) ⊎ ((t.zoom_permille ≡ 1000) × (t.focus_x ≡ 5000) × (t.focus_y ≡ 5000))
  pub backdrop : (t.mode ≡ fit) ⊎ (t.background_rgb ≡ 0)

validate_sound : (t : Transform) → validate t ≡ ok tt → IsValid t
unfolding validate Transform.is_crop Transform.is_fit Transform.is_neutral_viewport
validate_sound t h = record {
  turns = ground (arith, h);
  zoom_low = ground (arith, h);
  zoom_high = ground (arith, h);
  across = ground (arith, h);
  down = ground (arith, h);
  colour = ground (arith, h);
  viewport = ground (arith, h);
  backdrop = ground (arith, h);
}

validate_complete : (t : Transform) → IsValid t → validate t ≡ ok tt
unfolding validate Transform.is_crop Transform.is_fit Transform.is_neutral_viewport
validate_complete t v =
    ground
      (arith, v.turns, v.zoom_low, v.zoom_high, v.across, v.down, v.colour, v.viewport, v.backdrop)

-- A transform is accepted exactly if it is valid.
pub validate_iff : (t : Transform) → (validate t ≡ ok tt) ↔ IsValid t
validate_iff t = (validate_sound t, validate_complete t)
