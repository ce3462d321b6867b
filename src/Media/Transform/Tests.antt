-- ===== src/Media/Transform/Tests.antt =====
-- Transforms at concrete values.
use tryxctl.Media.Transform.{Transform, crop}

abbrev zoomed : Transform
zoomed = record {
  mode = crop;
  rotation_quarter_turns = 1;
  zoom_permille = 2500;
  focus_x = 2000;
  focus_y = 8000;
  background_rgb = 0;
}
