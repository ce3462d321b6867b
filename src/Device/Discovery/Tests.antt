-- ===== src/Device/Discovery/Tests.antt =====
-- Displays of a small device tree, and the theorems at it.
use tryxctl.Prelude.{
  ℕ, ◌≡◌, refl, true, false, equal, starts_with, Option, none, some, List, [], ◌∷◌, All, Member,
  here, arith, if◌then◌else◌,
}
use tryxctl.Prelude.Text.{codes, to_decimal, decimal_loop, zeros, split_once}
use tryxctl.Prelude.Numbers.{parse_unsigned}
use tryxctl.Prelude.Sorting.{IsSortedBy}
use tryxctl.Device.Discovery.Ids.{stable_id, parse_sysfs_name}
use tryxctl.Device.Discovery.Ids.Naming.{IsSamePlace, stable_id-injective}
use tryxctl.Device.Discovery.Interface.{
  PrinterInterface, found, missing, ambiguous, inward, outward, InterfaceDescriptor,
  EndpointDescriptor, printer_setting, find_printer_interface,
}
use tryxctl.Device.Discovery.Interface.Unique.{find_printer_interface-found}
use tryxctl.Device.Discovery.Tree.{
  Access, accessible, Entry, LegacyDevice, legacy_product_prefix, legacy_device, legacy_devices_in,
}
use tryxctl.Device.Discovery.Tree.Listed.{legacy_devices_in-IsListing}

ids :
    (stable_id 3 (12 ∷ []) 4 ≡ codes "usb:003-12")
    × (stable_id 1 (2 ∷ 3 ∷ 1 ∷ []) 9 ≡ codes "usb:001-2.3.1")
    × (stable_id 1 [] 9 ≡ codes "usb:001@009")
unfolding stable_id zeros to_decimal decimal_loop
ids = (refl, refl, refl)

names :
    (parse_sysfs_name (codes "1-2.3.1") ≡ some (1, 2 ∷ 3 ∷ 1 ∷ []))
    × (parse_sysfs_name (codes "usb3") ≡ none)
    × (parse_sysfs_name (codes "3-12:1.0") ≡ none)
    × (parse_sysfs_name (codes "3-") ≡ none)
unfolding parse_sysfs_name split_once starts_with parse_unsigned
names = (refl, refl, refl, refl)

same_id : stable_id 3 (12 ∷ []) 4 ≡ stable_id 3 (12 ∷ []) 9
unfolding stable_id
same_id = refl

stable_id-injective_example : IsSamePlace 3 (12 ∷ []) 4 3 (12 ∷ []) 9
stable_id-injective_example =
    stable_id-injective 3 (12 ∷ []) 4 3 (12 ∷ []) 9 (omega arith) (omega arith) (omega arith)
      (omega arith) (omega arith, tt) (omega arith, tt) same_id

abbrev printer_endpoints : List EndpointDescriptor
printer_endpoints =
    record { address = 0x81; is_bulk = true; direction = inward }
    ∷ record { address = 0x01; is_bulk = true; direction = outward }
    ∷ record { address = 0x83; is_bulk = false; direction = inward }
    ∷ []

abbrev printer : InterfaceDescriptor
printer = record {
  interface_number = 0;
  setting_number = 0;
  class_code = 7;
  sub_class_code = 1;
  protocol_code = 2;
  endpoints = printer_endpoints;
}

abbrev the_printer : PrinterInterface
the_printer = record { number = 0; alternate_setting = 0; bulk_in = 0x81; bulk_out = 0x01 }

printers :
    (find_printer_interface ((printer ∷ []) ∷ []) ≡ found the_printer)
    × (find_printer_interface ((printer ∷ []) ∷ (printer ∷ []) ∷ []) ≡ ambiguous 2)
    × (find_printer_interface [] ≡ missing)
unfolding find_printer_interface printer_setting
printers = (refl, refl, refl)

find_printer_interface-found_example : the_printer ≡ the_printer
unfolding find_printer_interface printer_setting
find_printer_interface-found_example =
    find_printer_interface-found ((printer ∷ []) ∷ []) the_printer the_printer (printer ∷ [])
      printer refl here here here

abbrev all_accessible : List ℕ → Access
all_accessible path = accessible

abbrev cooler_file : List ℕ → Option (List ℕ)
cooler_file name =
    if equal name (codes "idVendor")
    then some (codes "18d1\n")
    else if equal name (codes "product")
    then some (codes "cm01_se\n")
    else none

abbrev cooler : Entry
cooler = record {
  device = record { name = codes "3-12"; path = codes "/t/3-12"; file = cooler_file; tty = none };
  entries = [];
}

legacy_devices_in-IsListing_example :
    IsSortedBy
      (λ (d : LegacyDevice). d.id)
      (legacy_devices_in (codes "/dev") all_accessible (cooler ∷ []))
    × ((entry : Entry) (d : LegacyDevice)
        → legacy_device (codes "/dev") all_accessible entry ≡ some d
        → Member entry (cooler ∷ [])
        → Member d (legacy_devices_in (codes "/dev") all_accessible (cooler ∷ [])))
    × All
        (λ (d : LegacyDevice).
          (entry : Entry) × Member entry (cooler ∷ [])
          × (legacy_device (codes "/dev") all_accessible entry ≡ some d)
          × (starts_with d.product_string legacy_product_prefix ≡ true))
        (legacy_devices_in (codes "/dev") all_accessible (cooler ∷ []))
legacy_devices_in-IsListing_example =
    legacy_devices_in-IsListing (codes "/dev") all_accessible (cooler ∷ [])
