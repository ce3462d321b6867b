-- ===== src/Tool/Apply/Tests.antt =====
-- A saved screen sent over a channel that keeps count and fails after some requests.
use tryxctl.Prelude.{ℕ, ◌+◌, ◌≡◌, true, ltb, if◌then◌else◌, none, some, [], ◌∷◌, Bytes, ok, err}
use tryxctl.Prelude.Text.{codes}
use tryxctl.Legacy.{io}
use tryxctl.Legacy.Frame.{Response}
use tryxctl.Legacy.Commands.{Json}
use tryxctl.Legacy.Client.{Channel}
use tryxctl.Legacy.Client.Runs.{Follows}
use tryxctl.Tool.{DisplayState, default_screen}
use tryxctl.Tool.Apply.{hardware_names, apply_screen}
use tryxctl.Tool.Apply.Order.{with_names, apply_plan, apply_screen-Follows}

abbrev saved : DisplayState
saved = record {
  screen = record default_screen {
    sysinfo_display = codes "cpu temperature" ∷ codes "Memory Utilization" ∷ [];
  };
  brightness = none;
  cpu_name = none;
  gpu_name = none;
  temperature_unit = some (codes "Fahrenheit");
  fan_lcd_percent = none;
  rotation = none;
}

abbrev empty_response : Response Json
empty_response = record {
  raw = [];
  body = [];
  json = none;
  version = [];
  status = [];
  checksum_ok = true;
  length_ok = true;
}

-- The commands that were sent, of which the fourth request and those behind it fail.
abbrev failing : Channel
failing = record {
  State = ℕ;
  request_with = λ method command content n.
      (if ltb n 3 then ok empty_response else err (io (codes "gone")), n + 1);
  send_with = λ method command content n. (ok tt, n);
  sleep = λ ms n. n;
}

abbrev no_text : Json → Bytes
no_text value = []

apply_screen-Follows_example :
    Follows failing no_text
      (apply_plan failing no_text saved (hardware_names none (some (codes "GPU 1")) saved).0)
      0
      (apply_screen failing no_text none (some (codes "GPU 1")) saved 0).0
      (apply_screen failing no_text none (some (codes "GPU 1")) saved 0).1
    × ((apply_screen failing no_text none (some (codes "GPU 1")) saved 0).2
        ≡ with_names saved (hardware_names none (some (codes "GPU 1")) saved).0)
apply_screen-Follows_example =
    apply_screen-Follows failing no_text none (some (codes "GPU 1")) saved 0
