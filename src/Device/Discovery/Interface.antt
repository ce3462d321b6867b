-- ===== src/Device/Discovery/Interface.antt =====
-- The printer interface among a device's descriptors, as discovery.rs finds it. The descriptors are
-- what `rusb` gives.
pub mod Unique
use tryxctl.Prelude.{
  ℕ, zero, suc, Bool, true, false, ◌&&◌, ◌||◌, not, List, [], ◌∷◌, ◌++◌, ◌==◌, if◌then◌else◌,
  length,
}

abbrev printer_interface_class : ℕ
printer_interface_class = 7

abbrev printer_interface_subclass : ℕ
printer_interface_subclass = 1

abbrev printer_interface_protocol : ℕ
printer_interface_protocol = 2

pub record PrinterInterface : Type 0 where
  pub number : ℕ
  pub alternate_setting : ℕ
  pub bulk_in : ℕ
  pub bulk_out : ℕ

pub data InterfaceStatus : Type 0 where
  found : PrinterInterface → InterfaceStatus
  missing : InterfaceStatus
  ambiguous : ℕ → InterfaceStatus

pub data Direction : Type 0 where
  inward outward : Direction

pub record EndpointDescriptor : Type 0 where
  pub address : ℕ
  pub is_bulk : Bool
  pub direction : Direction

-- A setting of an interface.
pub record InterfaceDescriptor : Type 0 where
  pub interface_number : ℕ
  pub setting_number : ℕ
  pub class_code : ℕ
  pub sub_class_code : ℕ
  pub protocol_code : ℕ
  pub endpoints : List EndpointDescriptor

push_endpoint : Direction → ℕ → List ℕ × List ℕ → List ℕ × List ℕ
push_endpoint inward address (ins, outs) = (address ∷ ins, outs)
push_endpoint outward address (ins, outs) = (ins, address ∷ outs)

-- The bulk endpoints in each direction.
bulk_endpoints : List EndpointDescriptor → List ℕ × List ℕ
unfolding push_endpoint
bulk_endpoints [] = ([], [])
bulk_endpoints (e ∷ es) =
    let rest = bulk_endpoints es in
    if e.is_bulk then push_endpoint e.direction e.address rest else rest

is_printer : InterfaceDescriptor → Bool
is_printer setting =
    setting.class_code == printer_interface_class
    && setting.sub_class_code == printer_interface_subclass
    && setting.protocol_code == printer_interface_protocol

of_endpoints : InterfaceDescriptor → List ℕ × List ℕ → List PrinterInterface
of_endpoints setting (bulk_in ∷ [], bulk_out ∷ []) =
    record {
      number = setting.interface_number;
      alternate_setting = setting.setting_number;
      bulk_in = bulk_in;
      bulk_out = bulk_out;
    }
    ∷ []
of_endpoints setting _ = []

-- The interface that a setting is, if it has one bulk endpoint in each direction.
unfoldable pub printer_setting : InterfaceDescriptor → List PrinterInterface
unfolding is_printer of_endpoints bulk_endpoints
printer_setting setting =
    if is_printer setting then of_endpoints setting (bulk_endpoints setting.endpoints) else []

setting_matches : List InterfaceDescriptor → List PrinterInterface
unfolding printer_setting
setting_matches [] = []
setting_matches (setting ∷ settings) = printer_setting setting ++ setting_matches settings

matches_of : List (List InterfaceDescriptor) → List PrinterInterface
unfolding setting_matches
matches_of [] = []
matches_of (settings ∷ interfaces) = setting_matches settings ++ matches_of interfaces

status_of : List PrinterInterface → InterfaceStatus
status_of [] = missing
status_of (interface ∷ []) = found interface
status_of (a ∷ b ∷ rest) = ambiguous (length (a ∷ b ∷ rest))

-- Of the interfaces of a configuration, each with its settings.
unfoldable pub find_printer_interface : List (List InterfaceDescriptor) → InterfaceStatus
unfolding matches_of status_of
find_printer_interface interfaces = status_of (matches_of interfaces)
