-- ===== src/Tool.antt =====
-- The data of the tool in crates/tryxctl that the daemon and its clients share: src/ipc.rs,
-- src/state.rs, src/legacy.rs, with the types they take from crates/tryx-legacy. A text is a list of
-- numbers, and a JSON value that the daemon only passes on is its text.
pub mod Platform
pub mod Daemon
pub mod Ipc
pub mod Showing
pub mod Apply
use tryxctl.Prelude.{
  ℕ, ◌-◌, Bool, true, false, Option, none, some, List, [], ◌∷◌, if◌then◌else◌, ◌==◌, min, not,
  Bytes,
}
use tryxctl.Prelude.Text.{codes}
use tryxctl.Device.Product.{Product}
use tryxctl.Kanali.Wire.{DeviceInformation}
use tryxctl.Kanali.Device
use tryxctl.Kanali.Device.{Catalog}

pub data Protocol : Type 0 where
  legacy_protocol kanali_protocol : Protocol

-- `DeviceInfo` of crates/tryx-legacy/src/lib.rs
pub record DeviceInfo : Type 0 where
  pub product_id : Bytes
  pub os : Bytes
  pub serial : Bytes
  pub app_version : Bytes
  pub firmware : Bytes
  pub hardware : Bytes
  pub attributes : List Bytes

pub data Info : Type 0 where
  legacy_info : DeviceInfo → Info
  kanali_info : DeviceInformation → Info

pub record FanWarning : Type 0 where
  pub kind : Bytes
  pub description : Bytes

pub record FanStatus : Type 0 where
  pub lcd_fan_rpm : Option ℕ
  pub pump_rpm : Option ℕ
  pub available_storage : Option ℕ
  pub warnings : List FanWarning

pub record DisplaySettings : Type 0 where
  pub position : Bytes
  pub color : Bytes
  pub align : Bytes
  pub badges : List Bytes
  pub filter : Bytes
  pub filter_opacity : ℕ

pub record ScreenConfig : Type 0 where
  pub preset_id : Bytes
  pub media : List Bytes
  pub screen_mode : Bytes
  pub ratio : Bytes
  pub play_mode : Bytes
  pub sysinfo_display : List Bytes
  pub settings : DisplaySettings
  pub settings2 : DisplaySettings
  pub sysinfo_display2 : List Bytes
  pub waterfall_mode : Bool
  pub display_in_sleep : Bool

abbrev pub default_settings : DisplaySettings
default_settings = record {
  position = codes "Top";
  color = codes "#FFFFFF";
  align = codes "Left";
  badges = [];
  filter = [];
  filter_opacity = 0;
}

abbrev pub default_screen : ScreenConfig
default_screen = record {
  preset_id = [];
  media = [];
  screen_mode = codes "Full Screen";
  ratio = codes "2:1";
  play_mode = codes "Single";
  sysinfo_display = [];
  settings = default_settings;
  settings2 = default_settings;
  sysinfo_display2 = [];
  waterfall_mode = false;
  display_in_sleep = false;
}

pub record DisplayState : Type 0 where
  pub screen : ScreenConfig
  pub brightness : Option ℕ
  pub cpu_name : Option Bytes
  pub gpu_name : Option Bytes
  pub temperature_unit : Option Bytes
  pub fan_lcd_percent : Option ℕ
  pub rotation : Option ℕ

-- A sample of the monitor: its time, a word of 64 bits, and its other fields as one text.
pub record Sample : Type 0 where
  pub timestamp_ms : ℕ
  pub readings : Bytes

pub data Request : Type 0 where
  status info reboot catalog readback : Request
  apply : DisplayState → Request
  brightness : ℕ → Request
  delete_media : List Bytes → Request
  fan_lcd : Option ℕ → Request
  raw : (method command body : Bytes) (wait : Bool) → Request
  upload : (path name : Bytes) → Request
  rotate : ℕ → Request

pub record DaemonStatus : Type 0 where
  pub protocol : Protocol
  pub product : Option Product
  pub tty : Bytes
  pub connected : Bool
  pub reconnects : ℕ
  pub started_unix : ℕ
  pub interval : ℕ
  pub pushes : ℕ
  pub info : Option Info
  pub sample : Option Sample
  pub fans : FanStatus
  pub screen : ScreenConfig
  pub last_error : Option Bytes

abbrev pub no_fans : FanStatus
no_fans = record { lcd_fan_rpm = none; pump_rpm = none; available_storage = none; warnings = [] }

pub record Readback : Type 0 where
  pub source : Bytes
  pub protocol : Protocol
  pub device : Option Info
  pub media : List Bytes
  pub preset : Option Bytes
  pub play_mode : Bytes
  pub screen_mode : Bytes
  pub waterfall : Bool
  pub rotation : Option ℕ
  pub brightness : Option ℕ
  pub overlay : List Bytes
  pub overlay_right : List Bytes
  pub badges : List Bytes
  pub filter : Bytes
  pub filter_opacity : ℕ
  pub sleep_with_host : Bool
  pub fan_lcd_percent : Option ℕ
  pub fans : FanStatus

unfoldable pub non_blank : Bytes → Option Bytes
non_blank [] = none
non_blank (c ∷ cs) = some (c ∷ cs)

unfoldable pub last_applied : DisplayState → Option Info → FanStatus → Readback
unfolding non_blank
last_applied saved device fans =
    let screen = saved.screen in
    record {
      source = codes "last-applied";
      protocol = legacy_protocol;
      device = device;
      media = screen.media;
      preset = non_blank screen.preset_id;
      play_mode = screen.play_mode;
      screen_mode = screen.screen_mode;
      waterfall = screen.waterfall_mode;
      rotation = saved.rotation;
      brightness = saved.brightness;
      overlay = screen.sysinfo_display;
      overlay_right = screen.sysinfo_display2;
      badges = screen.settings.badges;
      filter = screen.settings.filter;
      filter_opacity = screen.settings.filter_opacity;
      sleep_with_host = not screen.display_in_sleep;
      fan_lcd_percent = saved.fan_lcd_percent;
      fans = fans;
    }

unfoldable pub from_kanali : Device.DisplayState → DisplayState → Option Info → Readback
from_kanali state saved device =
    let screen = saved.screen in
    record {
      source = codes "device";
      protocol = kanali_protocol;
      device = device;
      media = state.media;
      preset = none;
      play_mode = state.play_mode;
      screen_mode = state.screen_mode;
      waterfall = state.waterfall;
      rotation = some (if state.mirror then 180 else 0);
      brightness = some (min state.brightness 100);
      overlay = screen.sysinfo_display;
      overlay_right = screen.sysinfo_display2;
      badges = screen.settings.badges;
      filter = [];
      filter_opacity = 0;
      sleep_with_host = state.standby_enabled;
      fan_lcd_percent = none;
      fans = no_fans;
    }

-- The JSON values that the daemon answers with, before they are written as text.
pub data Value : Type 0 where
  null sent rebooting : Value
  daemon_status : DaemonStatus → Value
  device_info : Info → Value
  status_word : Bytes → Value
  shown : Readback → Value
  raw_response : (status body : Bytes) → Value
  media : Catalog → Value
  uploaded : Bytes → Value

pub record Reply : Type 0 where
  pub ok : Bool
  pub error : Option Bytes
  pub value : Value

-- `Reply::ok` and `Reply::error`
abbrev pub reply_ok : Value → Reply
reply_ok value = record { ok = true; error = none; value = value }

abbrev pub reply_error : Bytes → Reply
reply_error message = record { ok = false; error = some message; value = null }
