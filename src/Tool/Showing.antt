-- ===== src/Tool/Showing.antt =====
-- The saved state shown on a KANALI display: crates/tryxctl/src/kanali.rs, with the preset numbers of
-- crates/tryx-legacy/src/commands.rs. Selecting and opening a device are left out, and a sample's
-- values are texts already.
mod Known
mod Tests
use tryxctl.Prelude.{
  ℕ, ◌+◌, ◌-◌, ◌*◌, ◌^◌, Bool, true, false, ◌&&◌, ◌||◌, not, Option, none, some, List, [], ◌∷◌,
  ◌++◌, if◌then◌else◌, ltb, leb, ◌==◌, equal, Result, ok, err, Bytes, ◌>>=◌, length,
}
use tryxctl.Prelude.Text.{codes, format, equal_ignoring_case, to_two_digits}
use tryxctl.Device.Product.{Product, panorama_se, panorama, turris620}
use tryxctl.Media.Target.{Target, kanali_panorama, kanali_turris}
use tryxctl.Kanali.Errors.{Outcome, done, failed, stuck, KanaliError}
use tryxctl.Kanali.Device.{Change}
use tryxctl.Kanali.Device.Calls.{Link, apply, configure_overlay, keepalive, send_metrics}
use tryxctl.Kanali.Overlay.{
  OverlayArea, OverlayConfig, Metric, MetricValue, Moment, catalog, run_config,
}
use tryxctl.Tool.{DisplayState, DisplaySettings, ScreenConfig}

unfoldable pub media_target : Product → Target
media_target panorama_se = kanali_panorama
media_target panorama = kanali_panorama
media_target turris620 = kanali_turris

-- The first metric with this name, in any case.
find_label : Bytes → List Metric → Option Bytes
find_label wanted [] = none
find_label wanted (m ∷ ms) =
    if equal_ignoring_case m.name wanted then some m.name else find_label wanted ms

wanted_label : Bytes → Bytes
wanted_label label =
    if equal label (codes "Memory Utilization") then codes "Memory Usage" else label

pub supported_label : Bytes → Option Bytes
unfolding find_label wanted_label
supported_label label = find_label (wanted_label label) catalog

-- `char::to_digit(16)`
hex_digit : ℕ → Option ℕ
hex_digit c =
    if leb 48 c && leb c 57
    then some (c - 48)
    else if leb 65 c && leb c 70
    then some (c - 55)
    else if leb 97 c && leb c 102
    then some (c - 87)
    else none

-- The digits of a word of 32 bits, after those read so far; `none` when one is no digit, or when
-- the number does not fit.
hex_loop : ℕ → Bytes → Option ℕ
unfolding hex_digit
hex_loop sum [] = some sum
hex_loop sum (c ∷ cs) = elim (hex_digit c) [
  | none ↦ none
  | some d ↦ if ltb (sum * 16 + d) (2 ^ 32) then hex_loop (sum * 16 + d) cs else none
]

digits_of : Bytes → Option ℕ
unfolding hex_loop
digits_of [] = none
digits_of (c ∷ cs) = hex_loop 0 (c ∷ cs)

-- `u32::from_str_radix(text, 16)`, which takes a plus sign in front of the digits.
from_hex : Bytes → Option ℕ
unfolding digits_of
from_hex [] = none
from_hex (c ∷ cs) = if c == 43 then digits_of cs else digits_of (c ∷ cs)

trim_hashes : Bytes → Bytes
trim_hashes [] = []
trim_hashes (c ∷ cs) = if c == 35 then trim_hashes cs else c ∷ cs

or_grey : Option ℕ → ℕ
or_grey none = 0x00DCDCDC
or_grey (some color) = color

pub parse_color : Bytes → ℕ
unfolding from_hex trim_hashes or_grey
parse_color text = or_grey (from_hex (trim_hashes text))

-- A failure names the label that the overlay does not have.
pub data UnknownLabel : Type 0 where
  unknown_label : Bytes → UnknownLabel

found_name : Bytes → Option Bytes → Result UnknownLabel Bytes
found_name label none = err (unknown_label label)
found_name label (some name) = ok name

pub metric_names : List Bytes → Result UnknownLabel (List Bytes)
unfolding found_name
metric_names [] = ok []
metric_names (label ∷ labels) = do
  name ← found_name label (supported_label label)
  rest ← metric_names labels
  ok (name ∷ rest)

area_of : DisplaySettings → List Bytes → OverlayArea
area_of settings metrics = record {
  metrics = metrics;
  badges = settings.badges;
  alignment = settings.align;
  text_color = parse_color settings.color;
  vertical_placement = settings.position;
}

pub area_from : List Bytes → DisplaySettings → Result UnknownLabel OverlayArea
unfolding area_of
area_from labels settings = do metrics ← metric_names labels; ok (area_of settings metrics)

abbrev default_area : OverlayArea
default_area = record {
  metrics = [];
  badges = [];
  alignment = [];
  text_color = 0;
  vertical_placement = [];
}

is_split : ScreenConfig → Bool
is_split screen = equal screen.screen_mode (codes "Screen Splitting")

is_nil : {A : Type 0} → List A → Bool
is_nil [] = true
is_nil (x ∷ xs) = false

is_empty : OverlayArea → Bool
unfolding is_nil
is_empty area = is_nil area.metrics && is_nil area.badges

text_of : Option Bytes → Bytes
text_of none = []
text_of (some text) = text

overlay_of : DisplayState → OverlayArea → OverlayArea → Option OverlayConfig
unfolding is_split is_empty text_of
overlay_of saved left right =
    if is_empty left && is_empty right
    then none
    else some (record {
      left = left;
      right = right;
      dual = is_split saved.screen;
      waterfall = saved.screen.waterfall_mode;
      cpu_badge = text_of saved.cpu_name;
      gpu_badge = text_of saved.gpu_name;
    })

-- `none` when nothing is shown.
pub overlay_from : DisplayState → Result UnknownLabel (Option OverlayConfig)
unfolding overlay_of is_split
overlay_from saved = do
  left ← area_from saved.screen.sysinfo_display saved.screen.settings
  right ←
      if is_split saved.screen
      then area_from saved.screen.sysinfo_display2 saved.screen.settings2
      else ok default_area
  ok (overlay_of saved left right)

abbrev presets : List Bytes
presets =
    codes "Pre-set 1: Cooling delivery"
    ∷ codes "Pre-set 2: Migration"
    ∷ codes "Pre-set 3: Quantum time capsule"
    ∷ codes "Pre-set 4: Exo-Ecologies"
    ∷ codes "Pre-set 5: Racing"
    ∷ codes "Pre-set 6: Shuttle"
    ∷ []

position_from : ℕ → Bytes → List Bytes → Option ℕ
position_from n id [] = none
position_from n id (preset ∷ rest) =
    if equal preset id then some n else position_from (n + 1) id rest

-- A preset is counted from 1.
preset_number : Bytes → Option ℕ
unfolding position_from
preset_number id = position_from 1 id presets

preset_index : ℕ → Option Bytes
preset_index number =
    if number == 1
    then some (codes "01")
    else if number == 2
    then some (codes "02")
    else if number == 3
    then some (codes "04")
    else if number == 4
    then some (codes "03")
    else if number == 5
    then some (codes "05")
    else if number == 6
    then some (codes "06")
    else none

-- The catalog file behind a preset of the legacy firmware.
pub preset_file : ℕ → Option Bytes
unfolding preset_index
preset_file number = elim (preset_index number) [
  | none ↦ none
  | some index ↦ some (format (codes "default_" ∷ index ∷ codes ".mp4.h264_2240x1080" ∷ []))
]

file_of : Option ℕ → Option Bytes
file_of none = none
file_of (some number) = preset_file number

some_unless_nil : List Bytes → Option (List Bytes)
some_unless_nil [] = none
some_unless_nil (m ∷ ms) = some (m ∷ ms)

chosen_media : Option Bytes → List Bytes → Option (List Bytes)
unfolding some_unless_nil
chosen_media (some preset) media = some (preset ∷ [])
chosen_media none media = some_unless_nil media

pub change_from : DisplayState → Change
unfolding chosen_media file_of preset_number is_split
change_from saved =
    let screen = saved.screen in
    record {
      media = chosen_media (file_of (preset_number screen.preset_id)) screen.media;
      split_screen = is_split screen;
      play_mode = some screen.play_mode;
      brightness = saved.brightness;
      backlight = none;
      waterfall = some screen.waterfall_mode;
      rotation = saved.rotation;
    }

-- What a link remembers: the overlay that it leases, and the unit of its temperatures.
pub record Shown : Type 0 where
  pub overlay : Option OverlayConfig
  pub fahrenheit : Bool

is_fahrenheit : Option Bytes → Bool
is_fahrenheit none = false
is_fahrenheit (some unit) = equal unit (codes "Fahrenheit")

is_some : {A : Type 0} → Option A → Bool
is_some none = false
is_some (some _) = true

remembered : DisplayState → Option OverlayConfig → Shown
unfolding is_fahrenheit
remembered saved overlay = record {
  overlay = overlay;
  fahrenheit = is_fahrenheit saved.temperature_unit;
}

pub data ShowFailure : Type 0 where
  label : UnknownLabel → ShowFailure
  device : KanaliError → ShowFailure
  panicked : ShowFailure

-- Adopting the saved overlay does not touch the device.
pub adopt_state : DisplayState → Shown → Result ShowFailure (Unit {0}) × Shown
unfolding remembered
adopt_state saved shown = elim (overlay_from saved) [
  | ok overlay ↦ (ok tt, remembered saved overlay)
  | err e ↦ (err (label e), shown)
]

module _ (link : Link) (product : Product) where
  open link use {State}

  layout_of : Moment → Option OverlayConfig → Option (List tryxctl.Kanali.Wire.OverlayGroup)
  layout_of now none = none
  layout_of now (some overlay) = some (run_config now overlay)

  -- An empty layout clears whatever overlay was showing.
  send_overlay : Moment → Option OverlayConfig → State → Outcome (Unit {0}) × State
  send_overlay now none = keepalive link product none
  send_overlay now (some overlay) = configure_overlay link product (run_config now overlay)

  forget : {A : Type 0} → Outcome A → Outcome (Unit {0})
  forget (done _) = done tt
  forget (failed e) = failed e
  forget stuck = stuck

  send_state : Moment → Change → Option OverlayConfig → State → Outcome (Unit {0}) × State
  unfolding send_overlay layout_of forget is_some
  send_state now change overlay s =
      if is_some change.media || is_some change.brightness || is_some change.rotation
      then (let (result, after) = apply link product change (layout_of now overlay) s in
          (forget result, after))
      else send_overlay now overlay s

  -- The overlay is remembered when the device took it.
  kept :
      DisplayState
      → Option OverlayConfig
      → Shown
      → Outcome (Unit {0})
      → Result ShowFailure Bytes × Shown
  unfolding remembered
  kept saved overlay shown (done _) = (ok (codes "applied"), remembered saved overlay)
  kept saved overlay shown (failed e) = (err (device e), shown)
  kept saved overlay shown stuck = (err panicked, shown)

  apply_overlay :
      Moment
      → DisplayState
      → Shown
      → Result UnknownLabel (Option OverlayConfig)
      → State
      → Result ShowFailure Bytes × Shown × State
  unfolding send_state kept
  apply_overlay now saved shown (err e) s = (err (label e), shown, s)
  apply_overlay now saved shown (ok overlay) s =
      let (result, after) = send_state now (change_from saved) overlay s in
      let (reply, shown) = kept saved overlay shown result in (reply, shown, after)

  pub apply_state : Moment → DisplayState → Shown → State → Result ShowFailure Bytes × Shown × State
  unfolding apply_overlay
  apply_state now saved shown s = apply_overlay now saved shown (overlay_from saved) s

  -- The lease of a link is that of the overlay it remembers.
  pub keep_alive : Moment → Shown → State → Outcome (Unit {0}) × State
  unfolding layout_of
  keep_alive now shown = keepalive link product (layout_of now shown.overlay)

  pub push_values : Moment → Shown → List MetricValue → State → Outcome (Unit {0}) × State
  push_values now shown values s = elim shown.overlay [
    | none ↦ (done tt, s)
    | some overlay ↦ send_metrics link product now overlay values s
  ]
