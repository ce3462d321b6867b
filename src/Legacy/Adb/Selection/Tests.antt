-- ===== src/Legacy/Adb/Selection/Tests.antt =====
-- Transports and paths at concrete values.
use tryxctl.Prelude.{◌≡◌, refl, none, some, [], ◌∷◌, ◌++◌, ok, equal, starts_with}
use tryxctl.Prelude.Text.{codes, split_once, is_whitespace, words, flush, split_whitespace}
use tryxctl.Legacy.Adb
use tryxctl.Legacy.Adb.{
  AdbDevice, select, find_device, has_usb, has_serial, remote_path, is_safe_media_name, media_dir,
}
use tryxctl.Legacy.Adb.Selection.{Listed, Chosen, select-Chosen}

abbrev phone : AdbDevice
phone = record {
  serial = codes "p1";
  state = codes "device";
  usb = some (codes "1-2");
  product = none;
  model = none;
}

abbrev cooler : AdbDevice
cooler = record {
  serial = codes "c1";
  state = codes "device";
  usb = some (codes "3-12");
  product = none;
  model = none;
}

by_bus_run : select (phone ∷ cooler ∷ []) (some (codes "x")) (some (codes "3-12")) ≡ some cooler
unfolding select find_device has_usb has_serial equal Adb.option_map
by_bus_run = refl

select-Chosen_example :
    Listed cooler (phone ∷ cooler ∷ [])
    × Chosen (phone ∷ cooler ∷ []) (some (codes "x")) (some (codes "3-12")) cooler
select-Chosen_example =
    select-Chosen (phone ∷ cooler ∷ []) (some (codes "x")) (some (codes "3-12")) cooler by_bus_run

path_run : remote_path (codes "a.mp4") ≡ ok (media_dir ++ codes "a.mp4")
unfolding remote_path is_safe_media_name equal starts_with Adb.all_bytes Adb.is_name_byte
path_run = refl

listing :
    Adb.parse_devices
      (codes "* daemon started" ++ (10 ∷ codes "c1 device usb:3-12" ++ (13 ∷ 10 ∷ [])))
    ≡ cooler ∷ []
unfolding Adb.parse_devices Adb.lines starts_with split_whitespace words is_whitespace flush
    split_once equal
listing = refl
