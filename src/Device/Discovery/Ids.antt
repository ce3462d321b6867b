-- ===== src/Device/Discovery/Ids.antt =====
-- Device identities: bus number and port chain, as discovery.rs prints and reads them.
pub mod Naming
use tryxctl.Prelude.{
  ℕ, zero, suc, ◌+◌, ◌-◌, Bool, true, false, Option, none, some, List, [], ◌∷◌, ◌++◌, ◌==◌,
  if◌then◌else◌, length,
}
use mathlib.Core.Option
use tryxctl.Prelude.Text.{codes, to_decimal, split_once, zeros}
use tryxctl.Prelude.Numbers.{parse_unsigned}

-- `{:03}`
to_three_digits : ℕ → List ℕ
to_three_digits n = zeros (3 - length (to_decimal n)) ++ to_decimal n

pub port_chain : List ℕ → List ℕ
port_chain [] = []
port_chain (port ∷ []) = to_decimal port
port_chain (port ∷ next ∷ ports) = to_decimal port ++ (46 ∷ port_chain (next ∷ ports))

unfoldable pub stable_id : ℕ → List ℕ → ℕ → List ℕ
unfolding to_three_digits port_chain
stable_id bus [] address =
    codes "usb:" ++ (to_three_digits bus ++ (codes "@" ++ to_three_digits address))
stable_id bus (port ∷ ports) address =
    codes "usb:" ++ (to_three_digits bus ++ (codes "-" ++ port_chain (port ∷ ports)))

-- On Linux.
pub sysfs_path : ℕ → List ℕ → Option (List ℕ)
unfolding port_chain
sysfs_path bus [] = none
sysfs_path bus (port ∷ ports) =
    some (
      codes "/sys/bus/usb/devices/" ++ (to_decimal bus ++ (codes "-" ++ port_chain (port ∷ ports))))

-- `text.split('.')`: the parts, of which the first is read so far.
split_dots : List ℕ → List ℕ → List (List ℕ)
split_dots part [] = part ∷ []
split_dots part (c ∷ cs) =
    let rest = split_dots [] cs in
    let longer = split_dots (part ++ (c ∷ [])) cs in if c == 46 then part ∷ rest else longer

add_port : Option ℕ → Option (List ℕ) → Option (List ℕ)
add_port (some port) (some ports) = some (port ∷ ports)
add_port _ _ = none

parse_ports : List (List ℕ) → Option (List ℕ)
unfolding add_port
parse_ports [] = some []
parse_ports (part ∷ parts) = add_port (parse_unsigned 256 part) (parse_ports parts)

with_ports : Option ℕ → Option (List ℕ) → Option (ℕ × List ℕ)
with_ports (some bus) (some (port ∷ ports)) = some (bus, port ∷ ports)
with_ports _ _ = none

bus_and_ports : Option (List ℕ × List ℕ) → Option (ℕ × List ℕ)
unfolding parse_ports split_dots with_ports
bus_and_ports none = none
bus_and_ports (some (bus, ports)) =
    with_ports (parse_unsigned 256 bus) (parse_ports (split_dots [] ports))

unfoldable pub parse_sysfs_name : List ℕ → Option (ℕ × List ℕ)
unfolding bus_and_ports
parse_sysfs_name name = bus_and_ports (split_once name (codes "-"))
