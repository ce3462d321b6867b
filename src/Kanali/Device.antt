-- ===== src/Kanali/Device.antt =====
-- The data of `Device`, crates/tryx-kanali/src/lib.rs, and its functions that need no session.
pub mod Calls
pub mod Names
pub mod State
pub mod Written
use Prim.Native.String.{String}
use tryxctl.Prelude.{
  ℕ, zero, suc, ◌+◌, ◌*◌, ◌%◌, ◌^◌, min, Bool, true, false, ◌&&◌, ◌||◌, not, Option, none, some,
  List, [], ◌∷◌, ◌++◌, map, ltb, leb, ◌==◌, if◌then◌else◌, length, Result, ok, err, Bytes, equal,
  starts_with, ◌>>=◌, ◌>>◌,
}
use tryxctl.Prelude.Text.{codes}
use tryxctl.Kanali.Wire
use tryxctl.Kanali.Wire.{
  Response, ResponseBody, UserConfiguration, WorkConfiguration, DisplayConfiguration,
  StandbyConfiguration, DeviceInformation, MediaCatalog,
}
use tryxctl.Kanali.Errors.{
  KanaliError, invalid, transfer, invalid_response, no_transfer_status, unsupported,
}

abbrev pub chunk_size : ℕ
chunk_size = 0x40000

abbrev pub max_upload_bytes : ℕ
max_upload_bytes = 500 * 1024 * 1024

abbrev pub turris_transfer_track_id : ℕ
turris_transfer_track_id = 981521

pub record MediaEntry : Type 0 where
  pub name : Bytes
  pub extension : Bytes
  pub size : ℕ
  pub read_only : Bool
  pub preset : Bool

pub record Catalog : Type 0 where
  pub user : List MediaEntry
  pub presets : List MediaEntry

pub record DisplayState : Type 0 where
  pub backlight_enabled : Bool
  pub brightness : ℕ
  pub standby_enabled : Bool
  pub standby_media : Bytes
  pub mirror : Bool
  pub waterfall : Bool
  pub screen_mode : Bytes
  pub play_mode : Bytes
  pub media : List Bytes

pub record Change : Type 0 where
  pub media : Option (List Bytes)
  pub split_screen : Bool
  pub play_mode : Option Bytes
  pub brightness : Option ℕ
  pub backlight : Option Bool
  pub waterfall : Option Bool
  pub rotation : Option ℕ

unfoldable pub require : Bool → String → Result KanaliError (Unit {0})
require supported what = if supported then ok tt else err (unsupported what)

-- The closure `entry` of `catalog`.
entry : Bool → Wire.MediaEntry → MediaEntry
entry preset item = record {
  name = item.file_path;
  extension = item.file_ext;
  size = item.file_size;
  read_only = item.read_only;
  preset = preset;
}

pub catalog_from : MediaCatalog → Catalog
unfolding entry
catalog_from catalog = record {
  user = map (entry false) (catalog.media_file_list);
  presets = map (entry true) (catalog.preset_file_list);
}

is_some : {A : Type 0} → Option A → Bool
is_some none = false
is_some (some a) = true

is_quarter_turn : ℕ → Bool
is_quarter_turn degrees = degrees == 0 || degrees == 90 || degrees == 180 || degrees == 270

-- A test on a field that may be unset; an unset one passes.
passes : {A : Type 0} → (A → Bool) → Option A → Bool
passes test none = true
passes test (some a) = test a

-- The checks of `apply` before it asks the device.
pub check_change : Change → Result KanaliError (Unit {0})
unfolding is_some is_quarter_turn passes
check_change c =
    if not (
      is_some c.media
      || is_some c.brightness
      || is_some c.backlight
      || is_some c.waterfall
      || is_some c.rotation)
    then err (invalid "the change is empty")
    else if not (passes is_quarter_turn c.rotation)
    then err (invalid "rotation must be 0, 90, 180, or 270")
    else if not (passes (λ b. leb b 100) c.brightness)
    then err (invalid "brightness must be 0 to 100")
    else ok tt

pub is_name_byte : ℕ → Bool
is_name_byte b =
    (leb 48 b && leb b 57)
    || (leb 65 b && leb b 90)
    || (leb 97 b && leb b 122)
    || b == 46
    || b == 95
    || b == 45

pub all_bytes : (ℕ → Bool) → Bytes → Bool
all_bytes test [] = true
all_bytes test (b ∷ bs) = test b && all_bytes test bs

unfoldable pub is_safe_device_name : Bytes → Bool
unfolding is_name_byte all_bytes
is_safe_device_name name =
    not (equal name [])
    && leb (length name) 128
    && not (starts_with name (46 ∷ []))
    && all_bytes is_name_byte name

abbrev default_work : WorkConfiguration
default_work = record {
  media_mode = 0;
  loop_mode = 0;
  single_mode_media_file = [];
  dual_mode_left_media_file = [];
  dual_mode_right_media_file = [];
  kaleidoscope_media_file = [];
  kaleidoscope_source = 0;
}

abbrev default_display : DisplayConfiguration
default_display = record {
  backlight_enable = false;
  backlight_brightness = 0;
  mirror = false;
  ui_rotation = 0;
  media_rotation = 0;
}

or_default : {A : Type 0} → A → Option A → A
or_default d none = d
or_default d (some a) = a

loop_mode_of : Option Bytes → ℕ
loop_mode_of none = 0
loop_mode_of (some text) =
    if equal text (codes "Loop") then 1 else if equal text (codes "Shuffle") then 2 else 0

are_safe : List Bytes → Bool
are_safe [] = true
are_safe (name ∷ names) = is_safe_device_name name && are_safe names

-- The media written into the configuration, for a split screen and for the full one. A list of
-- another length is an error.
pub set_media :
    Bool → Option Bytes → List Bytes → WorkConfiguration → Result KanaliError WorkConfiguration
unfolding loop_mode_of are_safe
set_media true mode (left ∷ right ∷ []) work =
    if are_safe (left ∷ right ∷ [])
    then ok (record work {
      media_mode = 1;
      loop_mode = 0;
      dual_mode_left_media_file = left;
      dual_mode_right_media_file = right;
    })
    else err (invalid "media name is not accepted by the device")
set_media false mode (file ∷ []) work =
    if are_safe (file ∷ [])
    then ok (record work {
      media_mode = 0;
      loop_mode = loop_mode_of mode;
      single_mode_media_file = file;
    })
    else err (invalid "media name is not accepted by the device")
set_media split mode media work =
    err (invalid "this screen mode needs another number of media files")

pub write_media : Change → UserConfiguration → Result KanaliError UserConfiguration
unfolding set_media or_default
write_media c config = elim (c.media) [
  | none ↦ ok config
  | some media ↦ do
    work ← set_media c.split_screen c.play_mode media (or_default default_work config.work_config)
    ok (record config { work_config = some work })
]

set_display : Change → DisplayConfiguration → DisplayConfiguration
unfolding or_default
set_display c d = record d {
  backlight_brightness = or_default d.backlight_brightness c.brightness;
  backlight_enable = or_default d.backlight_enable c.backlight;
  ui_rotation = elim (c.waterfall) [ none ↦ d.ui_rotation | some on ↦ if on then 90 else 0 ];
  media_rotation = or_default d.media_rotation c.rotation;
}

pub write_display : Change → UserConfiguration → UserConfiguration
unfolding set_display is_some or_default
write_display c config =
    if is_some c.brightness || is_some c.backlight || is_some c.waterfall || is_some c.rotation
    then record config {
      display_config = some (set_display c (or_default default_display config.display_config));
    }
    else config

play_mode_name : ℕ → Bytes
play_mode_name mode =
    if mode == 1 then codes "Loop" else if mode == 2 then codes "Shuffle" else codes "Single"

-- The screen mode, the play mode and the media.
screen_of : WorkConfiguration → Bytes × Bytes × List Bytes
unfolding play_mode_name
screen_of work =
    if work.media_mode == 1
    then (
      codes "Screen Splitting",
      codes "Single",
      work.dual_mode_left_media_file ∷ work.dual_mode_right_media_file ∷ [],
    )
    else if work.media_mode == 2
    then (codes "Kaleidoscope", codes "Single", work.kaleidoscope_media_file ∷ [])
    else (codes "Full Screen", play_mode_name work.loop_mode, work.single_mode_media_file ∷ [])

pub state_from : UserConfiguration → Option DisplayState
unfolding screen_of
state_from config = elim (config.display_config) [
  | none ↦ none
  | some display ↦ elim (config.work_config) [
    | none ↦ none
    | some work ↦
        let (screen, play, media) = screen_of work in
        some (record {
          backlight_enabled = display.backlight_enable;
          brightness = min (display.backlight_brightness) 100;
          standby_enabled = elim (config.standby_config) [ none ↦ false | some s ↦ s.enable ];
          standby_media = elim (config.standby_config) [ none ↦ [] | some s ↦ s.media_file ];
          mirror = display.media_rotation == 180;
          waterfall = display.ui_rotation == 90;
          screen_mode = screen;
          play_mode = play;
          media = media;
        })
  ]
]

pub equal_lists : List Bytes → List Bytes → Bool
equal_lists [] [] = true
equal_lists (x ∷ xs) (y ∷ ys) = equal x y && equal_lists xs ys
equal_lists _ _ = false

same_bool : Bool → Bool → Bool
same_bool a b = if a then b else not b

-- The name of a mismatch, unless a test passes.
unless : Bool → String → List String
unless true what = []
unless false what = what ∷ []

-- What the readback shows differently from the change.
pub mismatches : Change → DisplayState → List String
unfolding equal_lists same_bool unless passes
mismatches c state =
    let mode = if c.split_screen then codes "Screen Splitting" else codes "Full Screen" in
    unless (passes (equal_lists state.media) c.media) "media"
    ++ (unless (passes (λ m. equal state.screen_mode mode) c.media) "screen mode"
        ++ (unless (passes (λ b. state.brightness == b) c.brightness) "brightness"
            ++ unless (passes (same_bool state.waterfall) c.waterfall) "waterfall"))

-- The status of a transfer: the number on the wire.
transfer_result : ℕ → Result KanaliError (Unit {0})
transfer_result status =
    if status == 0
    then ok tt
    else err (
        if status == 1
        then transfer "not enough space on the device"
        else if status == 2
        then transfer "the device could not write the file"
        else if status == 3
        then transfer "checksum failure"
        else transfer "unknown status")

pub check_transfer : Response → String → Result KanaliError (Unit {0})
unfolding transfer_result
check_transfer response request = elim (response.body) [
  | some (ResponseBody.transfer_begin_status status) ↦ transfer_result status
  | some (ResponseBody.transfer_chunk_status status) ↦ transfer_result status
  | some (ResponseBody.transfer_end_status status) ↦ transfer_result status
  | _ ↦ err (invalid_response request no_transfer_status)
]
