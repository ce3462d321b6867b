-- ===== src/Media/Target.antt =====
-- What a display expects prepared media to look like, crates/tryx-media/src/target.rs.
use tryxctl.Prelude.{ℕ, Bytes}
use tryxctl.Prelude.Text.{codes}

pub data Format : Type 0 where
  mp4 raw_h264 mxhd : Format

pub record Target : Type 0 where
  pub id : Bytes
  pub label : Bytes
  pub width : ℕ
  pub height : ℕ
  pub fps : ℕ
  pub format : Format

abbrev pub legacy_panorama : Target
legacy_panorama = record {
  id = codes "legacy-panorama";
  label = codes "Panorama (cm01 firmware)";
  width = 1920;
  height = 960;
  fps = 30;
  format = mp4;
}

abbrev pub kanali_panorama : Target
kanali_panorama = record {
  id = codes "kanali-panorama";
  label = codes "Panorama (KANALI firmware)";
  width = 2240;
  height = 1080;
  fps = 30;
  format = raw_h264;
}

abbrev pub kanali_turris : Target
kanali_turris = record {
  id = codes "kanali-turris";
  label = codes "Turris 620";
  width = 1280;
  height = 720;
  fps = 30;
  format = mxhd;
}
