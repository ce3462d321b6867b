-- ===== src/Device/Product.antt =====
-- The product profiles of crates/tryx-device/src/product.rs.
mod Profile
use tryxctl.Prelude.{
  ℕ, Bool, true, false, Option, none, some, List, [], ◌∷◌, ◌==◌, if◌then◌else◌, Bytes,
}
use tryxctl.Prelude.Text.{codes}

abbrev pub vendor_id : ℕ
vendor_id = 0x391a

abbrev pub rockchip_gadget_product_id : ℕ
rockchip_gadget_product_id = 0x0006

pub data Product : Type 0 where
  panorama_se panorama turris620 : Product

pub record MediaGeometry : Type 0 where
  pub width : ℕ
  pub height : ℕ

pub data IdleMode : Type 0 where
  overlay_layout transfer_only : IdleMode

pub record Capabilities : Type 0 where
  pub media_upload : Bool
  pub media_catalog : Bool
  pub display_configuration : Bool
  pub overlay_metrics : Bool
  pub firmware_flash : Bool

abbrev pub all : List Product
all = panorama_se ∷ panorama ∷ turris620 ∷ []

pub product_id : Product → ℕ
product_id panorama_se = 0x1021
product_id panorama = 0x1011
product_id turris620 = 0x2011

-- The first product of a list with an id.
find_id : ℕ → List Product → Option Product
unfolding product_id
find_id id [] = none
find_id id (p ∷ ps) = if product_id p == id then some p else find_id id ps

pub from_product_id : ℕ → Option Product
unfolding find_id
from_product_id id = find_id id all

pub name : Product → Bytes
name panorama_se = codes "Panorama SE"
name panorama = codes "Panorama"
name turris620 = codes "Turris 620"

unfoldable pub media_geometry : Product → MediaGeometry
media_geometry turris620 = record { width = 1280; height = 720 }
media_geometry _ = record { width = 2240; height = 1080 }

unfoldable pub media_name_suffix : Product → Bytes
media_name_suffix turris620 = codes ".h264_1280x720"
media_name_suffix _ = codes ".h264_2240x1080"

pub idle_mode : Product → IdleMode
idle_mode turris620 = transfer_only
idle_mode _ = overlay_layout

unfoldable pub capabilities : Product → Capabilities
capabilities panorama_se = record {
  media_upload = true;
  media_catalog = true;
  display_configuration = true;
  overlay_metrics = true;
  firmware_flash = true;
}
capabilities panorama = record {
  media_upload = true;
  media_catalog = true;
  display_configuration = true;
  overlay_metrics = true;
  firmware_flash = false;
}
capabilities turris620 = record {
  media_upload = true;
  media_catalog = false;
  display_configuration = false;
  overlay_metrics = false;
  firmware_flash = false;
}
