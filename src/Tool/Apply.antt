-- ===== src/Tool/Apply.antt =====
-- Sending the saved screen configuration to a legacy display, crates/tryxctl/src/legacy.rs. The names
-- of the hardware that the monitor finds are data here.
mod Order
mod Tests
use tryxctl.Prelude.{ℕ, Option, none, some, List, [], ◌∷◌, Bytes, Result, ok, err}
use tryxctl.Prelude.Text.{codes}
use tryxctl.Legacy.{LegacyError}
use tryxctl.Legacy.Frame.{Response}
use tryxctl.Legacy.Commands.{Json}
use tryxctl.Legacy.Client
use tryxctl.Legacy.Client.{
  Channel, Action, resume, return, set_screen_config, set_sysinfo_display, send_full_config,
  set_rotation,
}
use tryxctl.Tool.{DisplayState}

abbrev pub default_brightness : ℕ
default_brightness = 75

value_or : {A : Type 0} → A → Option A → A
value_or d none = d
value_or d (some a) = a

or_else : {A : Type 0} → Option A → Option A → Option A
or_else (some a) b = some a
or_else none b = b

detect : Option Bytes → Option Bytes → Option Bytes → Option Bytes → Bytes × Bytes
unfolding value_or or_else
detect (some cpu) (some gpu) found_cpu found_gpu = (cpu, gpu)
detect cpu gpu found_cpu found_gpu =
    (value_or (codes "CPU") (or_else cpu found_cpu), value_or (codes "GPU") (or_else gpu found_gpu))

-- The names for the badges and the state that keeps them; the names found by the monitor come last.
pub hardware_names : Option Bytes → Option Bytes → DisplayState → (Bytes × Bytes) × DisplayState
unfolding detect
hardware_names found_cpu found_gpu saved =
    let names = detect saved.cpu_name saved.gpu_name found_cpu found_gpu in
    (names, record saved { cpu_name = some names.0; gpu_name = some names.1 })

module _ (channel : Channel) (to_string : Json → Bytes) where
  infixl 5 ◌>>=◌ ◌>>◌
  abbrev ◌>>=◌ :
      {A B : Type 0}
      → Action channel to_string A
      → (A → Action channel to_string B)
      → Action channel to_string B
  ◌>>=◌ act k = Client.◌>>=◌ channel to_string act k

  abbrev ◌>>◌ :
      {A B : Type 0}
      → Action channel to_string A
      → Action channel to_string B
      → Action channel to_string B
  act >> next = act >>= λ _. next

  rotated : Option ℕ → Response Json → Action channel to_string (Response Json)
  rotated none response = return channel to_string response
  rotated (some degrees) response = do
    set_rotation channel to_string degrees
    return channel to_string response

  send_screen : DisplayState → Bytes × Bytes → Action channel to_string (Response Json)
  unfolding rotated value_or
  send_screen saved (cpu, gpu) = do
    set_screen_config channel to_string saved.screen
    set_sysinfo_display channel to_string saved.screen.sysinfo_display
    response ←
        send_full_config channel to_string saved.screen cpu gpu
          (value_or default_brightness saved.brightness)
          (value_or (codes "Celsius") saved.temperature_unit)
    rotated saved.rotation response

  -- With the state that is saved afterwards, whether the sends succeed or not.
  pub apply_screen :
      Option Bytes
      → Option Bytes
      → DisplayState
      → channel.State
      → Result LegacyError (Response Json) × channel.State × DisplayState
  unfolding send_screen hardware_names
  apply_screen found_cpu found_gpu saved s =
      let (names, kept) = hardware_names found_cpu found_gpu saved in
      let (r, after) = send_screen kept names s in (r, after, kept)
