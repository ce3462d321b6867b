-- ===== src/Legacy/Client.antt =====
-- `Client` of crates/tryx-legacy/src/lib.rs over a channel, which the serial link fills (Link). What
-- `serde_json` and the parsers of floating-point numbers give is taken as it is.
pub mod Runs
mod Link
mod Tests
use tryxctl.Prelude.{
  ℕ, zero, suc, ◌+◌, ◌-◌, ◌^◌, Bool, true, false, Option, none, some, List, [], ◌∷◌, ◌++◌, ◌==◌,
  ltb, if◌then◌else◌, min, Bytes, equal, Result, ok, err,
}
use tryxctl.Prelude.Text.{codes, trim}
use tryxctl.Prelude.Numbers.{parse_unsigned}
use tryxctl.Legacy.{LegacyError, no_response, missing_json}
use tryxctl.Legacy.Frame.{Response}
use tryxctl.Tool.{DeviceInfo, FanStatus, FanWarning, ScreenConfig}
use tryxctl.Legacy.Commands.{
  Json, null, number, other_number, text, array, object, Items, no_items, item, Fields, no_fields,
  field, screen_config, full_config, sysinfo_display, temperature_unit, spec, waterfall_mode,
  rotate, brightness, media_delete, fan_lcd,
}

-- The link that a client talks over, with the pauses between its requests in milliseconds.
pub record Channel : Type 1 where
  pub State : Type 0
  pub request_with : Bytes → Bytes → Bytes → State → Result LegacyError (Response Json) × State
  pub send_with : Bytes → Bytes → Bytes → State → Result LegacyError (Unit {0}) × State
  pub sleep : ℕ → State → State

get_field : Bytes → Fields → Option Json
get_field key no_fields = none
get_field key (field k v rest) =
    let later = get_field key rest in if equal key k then some v else later

-- `value.get(key)`
pub get : Bytes → Json → Option Json
unfolding get_field
get key (object fields) = get_field key fields
get key _ = none

abbrev pub screen_config_repeat_delay : ℕ
screen_config_repeat_delay = 200

or_null : Option Json → Json
or_null none = null
or_null (some value) = value

-- `value.get(key).and_then(Value::as_str).unwrap_or("unknown")`
text_or_unknown : Option Json → Bytes
text_or_unknown (some (text t)) = t
text_or_unknown _ = codes "unknown"

texts_in : Items → List Bytes
texts_in no_items = []
texts_in (item (text t) rest) = t ∷ texts_in rest
texts_in (item _ rest) = texts_in rest

attributes_of : Option Json → List Bytes
unfolding texts_in
attributes_of (some (array items)) = texts_in items
attributes_of _ = []

pub device_info : Json → DeviceInfo
unfolding get or_null text_or_unknown attributes_of
device_info json =
    let version = or_null (get (codes "version") json) in
    record {
      product_id = text_or_unknown (get (codes "productId") json);
      os = text_or_unknown (get (codes "OS") json);
      serial = text_or_unknown (get (codes "sn") json);
      app_version = text_or_unknown (get (codes "app") version);
      firmware = text_or_unknown (get (codes "firmware") version);
      hardware = text_or_unknown (get (codes "hardware") version);
      attributes = attributes_of (get (codes "attribute") json);
    }

pub default_fans : FanStatus
default_fans = record {
  lcd_fan_rpm = none;
  pump_rpm = none;
  available_storage = none;
  warnings = [];
}

-- The readers of a number as a floating-point one, rounded to 32 bits if it is finite and not
-- negative, and of the warnings, in a text or as a value.
module _ (round_u32 : Bytes → Option ℕ) (text_warnings : Bytes → Option (List FanWarning))
    (value_warnings : Json → Option (List FanWarning)) where
  -- An integer that does not fit is rounded as a floating-point number, which saturates.
  rpm_of : Option Json → Option ℕ
  rpm_of (some (number n)) = some (if ltb n (2 ^ 32) then n else 2 ^ 32 - 1)
  rpm_of (some (other_number t)) = round_u32 t
  rpm_of (some (text t)) = parse_unsigned (2 ^ 32) (trim t)
  rpm_of _ = none

  storage_of : Option Json → Option ℕ
  storage_of (some (number n)) = some n
  storage_of (some (text t)) = parse_unsigned (2 ^ 64) t
  storage_of _ = none

  or_empty : Option (List FanWarning) → List FanWarning
  or_empty none = []
  or_empty (some warnings) = warnings

  warnings_of : Option Json → List FanWarning
  unfolding or_empty
  warnings_of none = []
  warnings_of (some (text t)) = or_empty (text_warnings t)
  warnings_of (some value) = or_empty (value_warnings value)

  status_field : Bytes → Option Json → Option ℕ
  unfolding get rpm_of
  status_field key none = none
  status_field key (some status) = rpm_of (get key status)

  pub fan_status : Json → FanStatus
  unfolding get status_field storage_of warnings_of
  fan_status json = record {
    lcd_fan_rpm = status_field (codes "fanLCD") (get (codes "status") json);
    pump_rpm = status_field (codes "turboPump") (get (codes "status") json);
    available_storage = storage_of (get (codes "availableStorage") json);
    warnings = warnings_of (get (codes "warning") json);
  }

  fans_of : Option Json → FanStatus
  unfolding fan_status default_fans
  fans_of none = default_fans
  fans_of (some json) = fan_status json

  fans_result : Result LegacyError (Response Json) → Result LegacyError FanStatus
  unfolding fans_of default_fans
  fans_result (ok response) = ok (fans_of response.json)
  fans_result (err (no_response _ _)) = ok default_fans
  fans_result (err e) = err e

  -- `info` is the body that `commands::pc_info` gives.
  pub send_sysinfo :
      (channel : Channel) (to_string : Json → Bytes)
      → Json
      → channel.State
      → Result LegacyError FanStatus × channel.State
  unfolding fans_result
  send_sysinfo channel to_string info s =
      let (r, after) = channel.request_with (codes "STATE") (codes "all") (to_string info) s in
      (fans_result r, after)

info_result : Result LegacyError (Response Json) → Result LegacyError DeviceInfo
unfolding device_info
info_result (err e) = err e
info_result (ok response) = elim (response.json) [
  | none ↦ err (missing_json (codes "conn"))
  | some json ↦ ok (device_info json)
]

module _ (channel : Channel) (to_string : Json → Bytes) where
  open channel use {State, request_with, send_with, sleep}

  abbrev pub Action : Type 0 → Type 0
  Action A = State → Result LegacyError A × State

  pub resume :
      {A B : Type 0} → (A → Action B) → Result LegacyError A × State → Result LegacyError B × State
  resume k (ok a, s) = k a s
  resume k (err e, s) = (err e, s)

  infixl 5 ◌>>=◌ ◌>>◌
  abbrev pub ◌>>=◌ : {A B : Type 0} → Action A → (A → Action B) → Action B
  ◌>>=◌ act k s = resume k (act s)

  abbrev pub ◌>>◌ : {A B : Type 0} → Action A → Action B → Action B
  act >> next = act >>= λ _. next

  abbrev pub return : {A : Type 0} → A → Action A
  return a s = (ok a, s)

  abbrev pub request : Bytes → Bytes → Action (Response Json)
  request = request_with (codes "POST")

  abbrev pub send : Bytes → Bytes → Action (Unit {0})
  send = send_with (codes "POST")

  pub pause : ℕ → Action (Unit {0})
  pause ms s = (ok tt, sleep ms s)

  pub handshake : Action DeviceInfo
  unfolding info_result
  handshake s = let (r, after) = request (codes "conn") [] s in (info_result r, after)

  pub set_brightness : ℕ → Action (Response Json)
  set_brightness value = request (codes "brightness") (to_string (brightness (min value 100)))

  pub set_waterfall_mode : Bool → Action (Response Json)
  set_waterfall_mode enable = request (codes "waterfallMode") (to_string (waterfall_mode enable))

  pub set_rotation : ℕ → Action (Response Json)
  set_rotation degrees = request (codes "rotate") (to_string (rotate degrees))

  pub reboot : Action (Response Json)
  reboot = request (codes "reboot") []

  pub set_temperature_unit : Bytes → Action (Response Json)
  set_temperature_unit unit = request (codes "temperature") (to_string (temperature_unit unit))

  pub set_sysinfo_display : List Bytes → Action (Unit {0})
  set_sysinfo_display labels = send (codes "sysinfoDisplay") (to_string (sysinfo_display labels))

  pub send_spec : Bytes → Bytes → Action (Response Json)
  send_spec cpu gpu = request (codes "spec") (to_string (spec cpu gpu))

  pub delete_media : List Bytes → Action (Response Json)
  delete_media files = request (codes "mediaDelete") (to_string (media_delete files))

  pub set_screen_config : ScreenConfig → Action (Response Json)
  unfolding pause set_waterfall_mode
  set_screen_config config = do
    let body = to_string (screen_config config)
    request (codes "waterBlockScreenId") body
    pause screen_config_repeat_delay
    response ← request (codes "waterBlockScreenId") body
    pause screen_config_repeat_delay
    set_waterfall_mode config.waterfall_mode
    return response

  pub send_full_config : ScreenConfig → Bytes → Bytes → ℕ → Bytes → Action (Response Json)
  send_full_config config cpu gpu level unit =
      request (codes "config") (to_string (full_config config cpu gpu (min level 100) unit))

  pub set_fan_lcd : Option ℕ → Action (Response Json)
  set_fan_lcd fixed = request (codes "fanLCDSet") (to_string (fan_lcd fixed))
