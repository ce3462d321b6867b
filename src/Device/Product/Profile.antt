-- ===== src/Device/Product/Profile.antt =====
-- How the parts of a product's profile agree.
use tryxctl.Prelude.{ℕ, ◌≡◌, ◌↔◌, refl, true, some, [], ◌∷◌, arith}
use tryxctl.Prelude.Text.{codes, to_decimal, decimal_loop, format}
use tryxctl.Device.Product.{
  Product, panorama_se, panorama, turris620, product_id, find_id, from_product_id, media_geometry,
  media_name_suffix, idle_mode, overlay_layout, capabilities,
}

-- A product is found by a USB product id exactly if the id is its own: no two products share one.
pub from_product_id_iff :
    (id : ℕ) (p : Product) → (from_product_id id ≡ some p) ↔ (product_id p ≡ id)
unfolding from_product_id find_id product_id
from_product_id_iff id panorama_se = ground arith
from_product_id_iff id panorama = ground arith
from_product_id_iff id turris620 = ground arith

-- The suffix of media names spells the resolution of the product's display.
pub media_name_suffix-geometry :
    (p : Product)
    → media_name_suffix p
      ≡ format (
          codes ".h264_"
          ∷ to_decimal ((media_geometry p).width)
          ∷ codes "x"
          ∷ to_decimal ((media_geometry p).height)
          ∷ [])
unfolding media_name_suffix media_geometry to_decimal decimal_loop
media_name_suffix-geometry panorama_se = refl
media_name_suffix-geometry panorama = refl
media_name_suffix-geometry turris620 = refl

-- A product is kept alive by an overlay exactly if it has overlay metrics.
pub idle_mode_iff :
    (p : Product) → (idle_mode p ≡ overlay_layout) ↔ ((capabilities p).overlay_metrics ≡ true)
unfolding idle_mode capabilities
idle_mode_iff panorama_se = ground arith
idle_mode_iff panorama = ground arith
idle_mode_iff turris620 = ground arith
