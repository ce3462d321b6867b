-- ===== src/Device/Discovery/Interface/Unique.antt =====
-- The interface that is found is the only one.
use tryxctl.Prelude.{
  ◌≡◌, ap, List, [], ◌∷◌, Member, here, there, Member-append_left, Member-append_right, arith,
}
use tryxctl.Device.Discovery.Interface
use tryxctl.Device.Discovery.Interface.{
  PrinterInterface, InterfaceStatus, found, missing, ambiguous, InterfaceDescriptor,
  printer_setting, find_printer_interface,
}

setting_matches-Member :
    (setting : InterfaceDescriptor) (settings : List InterfaceDescriptor)
    (interface : PrinterInterface)
    → Member setting settings
    → Member interface (printer_setting setting)
    → Member interface (Interface.setting_matches settings)
unfolding Interface.setting_matches
setting_matches-Member setting [] interface m k = elim m [ ]
setting_matches-Member setting (first ∷ settings) interface here k =
    Member-append_left (Interface.setting_matches settings) k
setting_matches-Member setting (other ∷ settings) interface (there m) k =
    Member-append_right (printer_setting other)
      (setting_matches-Member setting settings interface m k)

matches_of-Member :
    (setting : InterfaceDescriptor) (settings : List InterfaceDescriptor)
    (interfaces : List (List InterfaceDescriptor)) (interface : PrinterInterface)
    → Member settings interfaces
    → Member setting settings
    → Member interface (printer_setting setting)
    → Member interface (Interface.matches_of interfaces)
unfolding Interface.matches_of
matches_of-Member setting settings [] interface m n k = elim m [ ]
matches_of-Member setting settings (first ∷ interfaces) interface here n k =
    Member-append_left (Interface.matches_of interfaces)
      (setting_matches-Member setting first interface n k)
matches_of-Member setting settings (first ∷ interfaces) interface (there m) n k =
    Member-append_right (Interface.setting_matches first)
      (matches_of-Member setting settings interfaces interface m n k)

pub the_interface : PrinterInterface → InterfaceStatus → PrinterInterface
the_interface default (found interface) = interface
the_interface default _ = default

status_of-found :
    (matches : List PrinterInterface) (interface other : PrinterInterface)
    → Interface.status_of matches ≡ found interface
    → Member other matches
    → other ≡ interface
unfolding Interface.status_of the_interface
status_of-found [] interface other e m = elim m [ ]
status_of-found (x ∷ []) interface other e here = ap (the_interface x) e
status_of-found (x ∷ []) interface other e (there m) = elim m [ ]
status_of-found (x ∷ y ∷ rest) interface other e m = absurd (ground (arith, e))

-- If an interface is found, every setting of the configuration that qualifies as the printer
-- interface is that one: a display with two of them is not opened on one by chance.
pub find_printer_interface-found :
    (interfaces : List (List InterfaceDescriptor)) (interface other : PrinterInterface)
    (settings : List InterfaceDescriptor) (setting : InterfaceDescriptor)
    → find_printer_interface interfaces ≡ found interface
    → Member settings interfaces
    → Member setting settings
    → Member other (printer_setting setting)
    → other ≡ interface
unfolding find_printer_interface
find_printer_interface-found interfaces interface other settings setting e m n k =
    status_of-found (Interface.matches_of interfaces) interface other e
      (matches_of-Member setting settings interfaces other m n k)
