-- ===== src/Legacy/Commands.antt =====
-- JSON bodies of the legacy commands, crates/tryx-legacy/src/commands.rs, over `serde_json::Value`.
-- The live metrics, which are floating-point numbers, are left out.
use tryxctl.Prelude.{
  ℕ, Bool, true, Option, none, some, List, [], ◌∷◌, if◌then◌else◌, min, Bytes, equal,
}
use tryxctl.Prelude.Text.{codes}
use tryxctl.Tool.{DisplaySettings, ScreenConfig}

-- A number that is no unsigned integer is its text.
mutual
  pub data Json : Type 0 where
    null : Json
    boolean : Bool → Json
    number : ℕ → Json
    other_number : Bytes → Json
    text : Bytes → Json
    array : Items → Json
    object : Fields → Json

  pub data Items : Type 0 where
    no_items : Items
    item : Json → Items → Items

  -- The members as they are added, the last one first: the order of their keys is that of the map of
  -- `serde_json`, behind the text of a value.
  pub data Fields : Type 0 where
    no_fields : Fields
    field : Bytes → Json → Fields → Fields

add_all : List (Bytes × Json) → Fields → Fields
add_all [] fields = fields
add_all ((key, value) ∷ rest) fields = add_all rest (field key value fields)

-- `json!({...})`
pub object_of : List (Bytes × Json) → Json
unfolding add_all
object_of members = object (add_all members no_fields)

items_of : List Json → Items
items_of [] = no_items
items_of (value ∷ values) = item value (items_of values)

texts : List Bytes → List Json
texts [] = []
texts (t ∷ ts) = text t ∷ texts ts

-- `json!(strings)`
pub array_of : List Bytes → Json
unfolding items_of texts
array_of strings = array (items_of (texts strings))

abbrev screen_splitting : Bytes
screen_splitting = codes "Screen Splitting"

settings_members : DisplaySettings → Json → List (Bytes × Json)
unfolding array_of
settings_members settings filter =
    (codes "position", text settings.position)
    ∷ (codes "color", text settings.color)
    ∷ (codes "align", text settings.align)
    ∷ (codes "filter", filter)
    ∷ (codes "badges", array_of settings.badges)
    ∷ []

filter_members : DisplaySettings → List (Bytes × Json)
filter_members settings =
    (codes "value", text settings.filter) ∷ (codes "opacity", number settings.filter_opacity) ∷ []

settings_json : DisplaySettings → Json
unfolding object_of settings_members filter_members
settings_json settings = object_of (settings_members settings (object_of (filter_members settings)))

pub insert_layout : ScreenConfig → Fields → Fields
unfolding settings_json items_of array_of
insert_layout config body =
    if equal config.screen_mode screen_splitting
    then field (codes "sysinfoDisplay")
        (array (items_of (array_of config.sysinfo_display ∷ array_of config.sysinfo_display2 ∷ [])))
        (field (codes "settings")
          (array (items_of (settings_json config.settings ∷ settings_json config.settings2 ∷ [])))
          body)
    else field (codes "sysinfoDisplay") (array_of config.sysinfo_display)
        (field (codes "settings") (settings_json config.settings) body)

pub insert_identity : ScreenConfig → Fields → Fields
insert_identity config body =
    let named =
      if equal config.preset_id []
      then field (codes "id") (text (codes "Customization"))
          (field (codes "Type") (text (codes "Custom")) body)
      else field (codes "id") (text config.preset_id)
          (field (codes "Type") (text (codes "Pre-set")) body) in
    field (codes "playMode") (text config.play_mode) (
      field (codes "ratio") (text config.ratio)
        (field (codes "screenMode") (text config.screen_mode) named))

pub screen_config : ScreenConfig → Json
unfolding insert_identity insert_layout array_of
screen_config config =
    let body = insert_identity config no_fields in
    object (
      insert_layout config (
        if equal config.preset_id []
        then field (codes "media") (array_of config.media) body
        else body))

shown_members : ScreenConfig → ℕ → Json → List (Bytes × Json)
shown_members config brightness id =
    (codes "enable", boolean true)
    ∷ (codes "displayInSleep", boolean config.display_in_sleep)
    ∷ (codes "brightness", number brightness)
    ∷ (codes "waterfallMode", boolean config.waterfall_mode)
    ∷ (codes "id", id)
    ∷ []

name_members : Bytes → Bytes → List (Bytes × Json)
name_members cpu gpu = (codes "cpu", text cpu) ∷ (codes "gpu", text gpu) ∷ []

config_members : Bytes → Json → Json → List (Bytes × Json)
config_members temperature_unit shown names =
    (codes "temperature", text temperature_unit)
    ∷ (codes "waterBlockScreen", shown)
    ∷ (codes "spec", names)
    ∷ []

pub full_config : ScreenConfig → Bytes → Bytes → ℕ → Bytes → Json
unfolding insert_identity insert_layout array_of object_of shown_members name_members config_members
full_config config cpu gpu brightness temperature_unit =
    let screen =
      insert_layout config
        (field (codes "media") (array_of config.media) (insert_identity config no_fields)) in
    object_of (
      config_members temperature_unit (object_of (shown_members config brightness (object screen)))
        (object_of (name_members cpu gpu)))

pub sysinfo_display : List Bytes → Json
unfolding object_of array_of
sysinfo_display labels = object_of ((codes "items", array_of labels) ∷ [])

pub temperature_unit : Bytes → Json
unfolding object_of
temperature_unit unit = object_of ((codes "value", text unit) ∷ [])

pub spec : Bytes → Bytes → Json
unfolding object_of name_members
spec cpu gpu = object_of (name_members cpu gpu)

pub waterfall_mode : Bool → Json
unfolding object_of
waterfall_mode enable = object_of ((codes "enable", boolean enable) ∷ [])

pub rotate : ℕ → Json
unfolding object_of
rotate degrees = object_of ((codes "degree", number degrees) ∷ [])

pub brightness : ℕ → Json
unfolding object_of
brightness value = object_of ((codes "value", number value) ∷ [])

pub media_delete : List Bytes → Json
unfolding object_of array_of
media_delete files = object_of ((codes "include", array_of files) ∷ [])

pair : ℕ → ℕ → Json
unfolding items_of
pair a b = array (items_of (number a ∷ number b ∷ []))

smart_mode : Json
unfolding items_of pair
smart_mode = array (
    items_of (
      pair 0 10
      ∷ pair 28 10
      ∷ pair 48 10
      ∷ pair 61 10
      ∷ pair 75 10
      ∷ pair 77 68
      ∷ pair 79 100
      ∷ pair 100 100
      ∷ []))

fan_mode : Option ℕ → Bytes × ℕ
fan_mode none = (codes "Smart Mode", 0)
fan_mode (some percent) = (codes "Fixed Mode", percent)

pub fan_lcd : Option ℕ → Json
unfolding object_of smart_mode fan_mode
fan_lcd fixed =
    let (mode, percent) = fan_mode fixed in
    object_of (
      (codes "mode", text mode)
      ∷ (codes "smartMode", smart_mode)
      ∷ (codes "fixedMode", number (min percent 100))
      ∷ [])
