-- ===== src/Tool/Showing/Tests.antt =====
-- A saved overlay applied to a link that takes writes and answers no request.
use tryxctl.Prelude.{
  ℕ, ◌≡◌, ◌≢◌, refl, false, Option, none, some, [], ◌∷◌, Result, ok, err, Bytes, arith,
}
use tryxctl.Prelude.Text.{codes}
use tryxctl.Device.Product.{panorama}
use tryxctl.Kanali.Errors.{done, failed, stuck, KanaliError}
use tryxctl.Kanali.Device.Calls.{Link}
use tryxctl.Kanali.Overlay.{Moment}
use tryxctl.Tool.{DisplayState, default_screen}
use tryxctl.Tool.Showing.{Shown, apply_state, supported_label, parse_color, preset_file}
use tryxctl.Tool.Showing.Known.{Remembers, apply_state-Remembers}

abbrev silent : Link
silent = record {
  State = ℕ;
  execute = λ r e p track s. (failed (KanaliError.no_response "request" 1000), s);
  write_only = λ r s. (done tt, s);
  write_tracked_only = λ r s. (done 1, s);
  drain = λ window s. (0, s);
  bootstrap = λ s. (stuck, s);
  execute_ends = λ r e p track s h. cc;
  execute_matches = λ r e p track s reply h. absurd (ground (arith, h));
}

abbrev saved : DisplayState
saved = record {
  screen = record default_screen {
    sysinfo_display = codes "cpu temperature" ∷ codes "Memory Utilization" ∷ [];
  };
  brightness = none;
  cpu_name = none;
  gpu_name = none;
  temperature_unit = some (codes "Fahrenheit");
  fan_lcd_percent = none;
  rotation = none;
}

abbrev nothing : Shown
nothing = record { overlay = none; fahrenheit = false }

abbrev noon : Moment
noon = record { date = codes "26/11/2026"; time = codes "12:00" }

memory_label : supported_label (codes "Memory Utilization") ≡ some (codes "Memory Usage")
unfolding supported_label tryxctl.Prelude.Text.equal_ignoring_case tryxctl.Prelude.equal
    tryxctl.Prelude.Text.to_lowercase tryxctl.Prelude.Text.lower
memory_label = refl

orange : parse_color (codes "#FF8800") ≡ 0x00FF8800
unfolding parse_color
orange = refl

third_preset : preset_file 3 ≡ some (codes "default_04.mp4.h264_2240x1080")
unfolding preset_file
third_preset = refl

apply_state-Remembers_example :
    Remembers saved nothing
      (apply_state silent panorama noon saved nothing 0).0
      (apply_state silent panorama noon saved nothing 0).1
apply_state-Remembers_example = apply_state-Remembers silent panorama noon saved nothing 0
