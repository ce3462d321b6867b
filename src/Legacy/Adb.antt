-- ===== src/Legacy/Adb.antt =====
-- Choosing an ADB transport and naming files, crates/tryx-legacy/src/adb.rs. The runs of the `adb`
-- program are in Files.
mod Selection
pub mod Names
pub mod Lines
pub mod Files
use tryxctl.Prelude.{
  ℕ, zero, suc, Bool, true, false, ◌&&◌, ◌||◌, not, Option, none, some, List, [], ◌∷◌, ◌++◌, leb,
  ◌==◌, if◌then◌else◌, length, Result, ok, err, Bytes, equal, starts_with,
}
use tryxctl.Prelude.Text.{codes, split_once, split_whitespace}
use tryxctl.Legacy.{LegacyError, unsafe_media_name}

abbrev pub media_dir : Bytes
media_dir = codes "/sdcard/pcMedia/"

pub record AdbDevice : Type 0 where
  pub serial : Bytes
  pub state : Bytes
  pub usb : Option Bytes
  pub product : Option Bytes
  pub model : Option Bytes

-- `text.lines()`, the line read so far first: a carriage return at the end of a line is dropped,
-- and an empty last line is none.
strip_return : Bytes → Bytes
strip_return [] = []
strip_return (c ∷ []) = if c == 13 then [] else c ∷ []
strip_return (c ∷ d ∷ cs) = c ∷ strip_return (d ∷ cs)

end_line : Bytes → List Bytes
end_line [] = []
end_line (c ∷ cs) = (c ∷ cs) ∷ []

lines_after : Bytes → Bytes → List Bytes
unfolding strip_return end_line
lines_after line [] = end_line line
lines_after line (c ∷ cs) =
    let rest = lines_after [] cs in
    let longer = lines_after (line ++ (c ∷ [])) cs in
    if c == 10 then strip_return line ∷ rest else longer

pub lines : Bytes → List Bytes
unfolding lines_after
lines text = lines_after [] text

-- The qualifiers of a device, of which the last of a kind counts.
pub add_qualifiers : List Bytes → AdbDevice → AdbDevice
add_qualifiers [] d = d
add_qualifiers (token ∷ tokens) d =
    let next : AdbDevice = elim (split_once token (codes ":")) [
      | none ↦ d
      | some p ↦
          if equal (p.0) (codes "usb")
          then record d { usb = some (p.1) }
          else if equal (p.0) (codes "product")
          then record d { product = some (p.1) }
          else if equal (p.0) (codes "model")
          then record d { model = some (p.1) }
          else d
    ] in
    add_qualifiers tokens next

device_of : List Bytes → List AdbDevice
unfolding add_qualifiers
device_of (serial ∷ state ∷ tokens) =
    add_qualifiers tokens
      (record { serial = serial; state = state; usb = none; product = none; model = none })
    ∷ []
device_of _ = []

is_device_line : Bytes → Bool
is_device_line line =
    not (starts_with line (codes "List of devices")) && not (starts_with line (codes "*"))

devices_of : List Bytes → List AdbDevice
unfolding device_of is_device_line
devices_of [] = []
devices_of (line ∷ rest) =
    (if is_device_line line then device_of (split_whitespace line) else []) ++ devices_of rest

pub parse_devices : Bytes → List AdbDevice
unfolding devices_of
parse_devices output = devices_of (lines output)

pub has_serial : Bytes → AdbDevice → Bool
has_serial serial d = equal d.serial serial

pub has_usb : Bytes → AdbDevice → Bool
has_usb name d = elim (d.usb) [ none ↦ false | some usb ↦ equal usb name ]

-- `devices.iter().find(test)`, with no device for a test that is not made.
pub find_device : Option (AdbDevice → Bool) → List AdbDevice → Option AdbDevice
find_device none devices = none
find_device (some test) [] = none
find_device (some test) (d ∷ ds) = if test d then some d else find_device (some test) ds

pub the_only : List AdbDevice → Option AdbDevice
the_only (only ∷ []) = some only
the_only _ = none

option_map : {A B : Type 0} → (A → B) → Option A → Option B
option_map f none = none
option_map f (some a) = some (f a)

pub select : List AdbDevice → Option Bytes → Option Bytes → Option AdbDevice
unfolding option_map
select devices usb_serial sysfs_name =
    elim (find_device (option_map has_serial usb_serial) devices) [
      | some d ↦ some d
      | none ↦ elim (find_device (option_map has_usb sysfs_name) devices) [
        | some d ↦ some d
        | none ↦ elim usb_serial [
          | some s ↦ none
          | none ↦ elim sysfs_name [ some n ↦ none | none ↦ the_only devices ]
        ]
      ]
    ]

pub is_name_byte : ℕ → Bool
is_name_byte b =
    (leb 48 b && leb b 57)
    || (leb 65 b && leb b 90)
    || (leb 97 b && leb b 122)
    || b == 46
    || b == 95
    || b == 45

all_bytes : (ℕ → Bool) → Bytes → Bool
all_bytes test [] = true
all_bytes test (b ∷ bs) = test b && all_bytes test bs

pub is_safe_media_name : Bytes → Bool
unfolding is_name_byte all_bytes
is_safe_media_name name =
    not (equal name [])
    && not (starts_with name (46 ∷ []))
    && leb (length name) 128
    && all_bytes is_name_byte name

pub remote_path : Bytes → Result LegacyError Bytes
remote_path name =
    if is_safe_media_name name then ok (media_dir ++ name) else err (unsafe_media_name name)
