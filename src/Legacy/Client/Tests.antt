-- ===== src/Legacy/Client/Tests.antt =====
-- What a client reads from replies.
use tryxctl.Prelude.{ℕ, ◌≡◌, refl, ◌^◌, equal, Option, none, some, List, [], ◌∷◌, Bytes}
use tryxctl.Prelude.Text.{codes, trim, trim_start, trim_end, keep_unless_blank, is_whitespace}
use tryxctl.Prelude.Numbers.{parse_unsigned}
use tryxctl.Tool.{FanWarning}
use tryxctl.Legacy.Commands.{Json, text, number, array, item, no_items, object, field, no_fields}
use tryxctl.Legacy.Client.{device_info, fan_status}

abbrev conn_reply : Json
conn_reply = object (
    field (codes "attribute") (array (item (text (codes "argb")) (item (number 7) no_items))) (
      field (codes "productId") (text (codes "cm01_se")) (
        field (codes "version") (object (field (codes "app") (text (codes "1.2.3")) no_fields))
          no_fields)))

conn_info : device_info conn_reply ≡ record {
  product_id = codes "cm01_se";
  os = codes "unknown";
  serial = codes "unknown";
  app_version = codes "1.2.3";
  firmware = codes "unknown";
  hardware = codes "unknown";
  attributes = codes "argb" ∷ [];
}
unfolding device_info equal
conn_info = refl

abbrev no_rounding : Bytes → Option ℕ
no_rounding t = none

abbrev no_texts : Bytes → Option (List FanWarning)
no_texts t = none

abbrev no_values : Json → Option (List FanWarning)
no_values value = none

fans :
    fan_status no_rounding no_texts no_values (
      object (
        field
          (codes "status")
          (object (
            field
              (codes "fanLCD")
              (text (codes " 1280"))
              (field (codes "turboPump") (number (2 ^ 40)) no_fields)))
          no_fields))
    ≡ record {
      lcd_fan_rpm = some 1280;
      pump_rpm = some 4294967295;
      available_storage = none;
      warnings = [];
    }
unfolding fan_status equal trim trim_start trim_end keep_unless_blank is_whitespace parse_unsigned
fans = refl
