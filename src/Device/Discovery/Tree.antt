-- ===== src/Device/Discovery/Tree.antt =====
-- The displays in a sysfs USB device tree, as discovery.rs lists them.
pub mod Listed
use tryxctl.Prelude.{
  ℕ, zero, suc, ◌+◌, ◌^◌, Bool, true, false, ◌&&◌, ◌||◌, not, Option, none, some, List, [], ◌∷◌,
  ◌++◌, ◌==◌, if◌then◌else◌, starts_with,
}
use mathlib.Core.Option
use tryxctl.Prelude.Text.{codes, trim, to_padded_hex}
use tryxctl.Prelude.Numbers.{parse_unsigned, parse_hex}
use tryxctl.Prelude.Sorting.{sort_by}
use tryxctl.Device.Product.{Product, from_product_id, vendor_id, rockchip_gadget_product_id}
use tryxctl.Device.Discovery.Ids.{stable_id, parse_sysfs_name}
use tryxctl.Device.Discovery.Interface.{PrinterInterface, InterfaceStatus, found}

pub data Access : Type 0 where
  accessible permission_denied busy : Access
  error : List ℕ → Access

abbrev pub legacy_vendor_id : ℕ
legacy_vendor_id = 0x18d1

abbrev pub legacy_product_prefix : List ℕ
legacy_product_prefix = codes "cm01"

pub record PrinterDevice : Type 0 where
  pub id : List ℕ
  pub sysfs_path : Option (List ℕ)
  pub usb_id : List ℕ
  pub product_id : ℕ
  pub product : Option Product
  pub transitional : Bool
  pub manufacturer : Option (List ℕ)
  pub product_string : Option (List ℕ)
  pub serial : Option (List ℕ)
  pub access : Access
  pub interface : InterfaceStatus

pub record LegacyDevice : Type 0 where
  pub id : List ℕ
  pub sysfs_path : List ℕ
  pub usb_id : List ℕ
  pub manufacturer : Option (List ℕ)
  pub product_string : List ℕ
  pub serial : Option (List ℕ)
  pub tty : Option (List ℕ)
  pub tty_access : Option Access
  pub adb_interface : Bool

-- A directory with the files that can be read in it; `tty` is the first entry of its directory tty.
pub record Directory : Type 0 where
  pub name : List ℕ
  pub path : List ℕ
  pub file : List ℕ → Option (List ℕ)
  pub tty : Option (List ℕ)

-- A device with the directories in it.
pub record Entry : Type 0 where
  pub device : Directory
  pub entries : List Directory

non_empty : List ℕ → Option (List ℕ)
non_empty [] = none
non_empty (c ∷ cs) = some (c ∷ cs)

read_as : Option (List ℕ) → Option (List ℕ)
unfolding non_empty
read_as none = none
read_as (some text) = non_empty (trim text)

pub read_attr : Directory → List ℕ → Option (List ℕ)
unfolding read_as
read_attr dir attr = read_as (dir.file attr)

and_then : {A B : Type 0} → Option A → (A → Option B) → Option B
and_then none f = none
and_then (some a) f = f a

pub read_hex : ℕ → Directory → List ℕ → Option ℕ
unfolding and_then read_attr
read_hex bound dir attr = and_then (read_attr dir attr) (parse_hex bound)

value_or : {A : Type 0} → A → Option A → A
value_or d none = d
value_or d (some a) = a

is_number : ℕ → Option ℕ → Bool
is_number n none = false
is_number n (some m) = m == n

-- The directories of a device's interfaces, in order.
with_prefix : List ℕ → List Directory → List Directory
with_prefix prefix [] = []
with_prefix prefix (dir ∷ dirs) =
    (if starts_with dir.name prefix then dir ∷ [] else []) ++ with_prefix prefix dirs

interfaces : Entry → List Directory
unfolding with_prefix
interfaces entry =
    sort_by (λ dir. dir.path) (with_prefix (entry.device.name ++ codes ":") entry.entries)

is_adb : Directory → Bool
unfolding read_hex is_number
is_adb dir =
    is_number 0xff (read_hex 256 dir (codes "bInterfaceClass"))
    && is_number 0x42 (read_hex 256 dir (codes "bInterfaceSubClass"))
    && is_number 0x01 (read_hex 256 dir (codes "bInterfaceProtocol"))

or_else : {A : Type 0} → Option A → Option A → Option A
or_else (some a) b = some a
or_else none b = b

module _ (dev : List ℕ) (path_access : List ℕ → Access) where
  tty_node : Option (List ℕ) → Option (List ℕ)
  tty_node none = none
  tty_node (some node) = some (dev ++ (codes "/" ++ node))

  -- The first tty of an interface that is not the ADB one, and whether there is an ADB one.
  scan : List Directory → Option (List ℕ) × Bool → Option (List ℕ) × Bool
  unfolding is_adb or_else tty_node
  scan [] (tty, adb) = (tty, adb)
  scan (dir ∷ dirs) (tty, adb) =
      scan dirs (if is_adb dir then (tty, true) else (or_else tty (tty_node dir.tty), adb))

  address_of : Directory → ℕ
  unfolding and_then value_or read_attr
  address_of dir = value_or 0 (and_then (read_attr dir (codes "devnum")) (parse_unsigned 256))

  legacy_of : Entry → List ℕ → ℕ × List ℕ → LegacyDevice
  unfolding scan interfaces read_attr read_hex value_or address_of
  legacy_of entry product_string (bus, ports) =
      let dir = entry.device in
      let (tty, adb) = scan (interfaces entry) (none, false) in
      record {
        id = stable_id bus ports (address_of dir);
        sysfs_path = dir.path;
        usb_id =
            codes "18d1:"
            ++ to_padded_hex 4 (value_or 0 (read_hex (2 ^ 16) dir (codes "idProduct")));
        manufacturer = read_attr dir (codes "manufacturer");
        product_string = product_string;
        serial = read_attr dir (codes "serial");
        tty = tty;
        tty_access = Option.map path_access tty;
        adb_interface = adb;
      }

  with_product : Entry → ℕ × List ℕ → Option (List ℕ) → Option LegacyDevice
  unfolding legacy_of
  with_product entry place none = none
  with_product entry place (some product_string) =
      if starts_with product_string legacy_product_prefix
      then some (legacy_of entry product_string place)
      else none

  -- What the loop pushes for one entry.
  pub legacy_device : Entry → Option LegacyDevice
  unfolding with_product read_hex is_number and_then read_attr
  legacy_device entry = and_then (parse_sysfs_name entry.device.name) (λ place.
      if is_number legacy_vendor_id (read_hex (2 ^ 16) entry.device (codes "idVendor"))
      then with_product entry place (read_attr entry.device (codes "product"))
      else none)

  printer_of : Entry → ℕ × List ℕ → PrinterDevice
  unfolding read_attr read_hex value_or address_of
  printer_of entry (bus, ports) =
      let dir = entry.device in
      let product_id = value_or 0 (read_hex (2 ^ 16) dir (codes "idProduct")) in
      record {
        id = stable_id bus ports (address_of dir);
        sysfs_path = some dir.path;
        usb_id = codes "391a:" ++ to_padded_hex 4 product_id;
        product_id = product_id;
        product = from_product_id product_id;
        transitional = product_id == rockchip_gadget_product_id;
        manufacturer = read_attr dir (codes "manufacturer");
        product_string = read_attr dir (codes "product");
        serial = read_attr dir (codes "serial");
        access = path_access (dir.path ++ codes "/socket");
        interface =
            found (record { number = 0; alternate_setting = 0; bulk_in = 0x81; bulk_out = 0x01 });
      }

  pub printer_device : Entry → Option PrinterDevice
  unfolding printer_of read_hex is_number and_then
  printer_device entry = and_then (parse_sysfs_name entry.device.name) (λ place.
      if is_number vendor_id (read_hex (2 ^ 16) entry.device (codes "idVendor"))
      then some (printer_of entry place)
      else none)

  collect : {A : Type 0} → (Entry → Option A) → List Entry → List A
  collect f [] = []
  collect f (entry ∷ entries) = elim (f entry) [ none ↦ [] | some a ↦ a ∷ [] ] ++ collect f entries

  -- The entries that `read_dir` gives, none if it fails.
  pub legacy_devices_in : List Entry → List LegacyDevice
  unfolding collect legacy_device
  legacy_devices_in entries = sort_by (λ d. d.id) (collect legacy_device entries)

  pub printer_devices_in : List Entry → List PrinterDevice
  unfolding collect printer_device
  printer_devices_in entries = sort_by (λ d. d.id) (collect printer_device entries)
