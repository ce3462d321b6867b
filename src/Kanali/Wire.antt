-- ===== src/Kanali/Wire.antt =====
-- The messages of crates/tryx-proto/proto/wire-v1, as prost generates them. A text is its code points,
-- an unset message field is `none`, and an enum field is the number that the wire carries. A `sint32`
-- is the number that stands for it on the wire.
use tryxctl.Prelude.{ℕ, Bool, Option, List, Bytes}

pub record WireHeader : Type 0 where
  pub version : ℕ
  pub track_id : ℕ
  pub payload_crc32 : ℕ

pub record DeviceInformation : Type 0 where
  pub os_name : Bytes
  pub os_version : Bytes
  pub firmware_version : Bytes
  pub product_name : Bytes
  pub app_version : Bytes
  pub serial_number : Bytes
  pub serial_number_locked : Bool
  pub chip_id : Bytes

pub record MediaEntry : Type 0 where
  pub file_path : Bytes
  pub file_ext : Bytes
  pub file_size : ℕ
  pub read_only : Bool

pub record MediaCatalog : Type 0 where
  pub media_file_list : List MediaEntry
  pub preset_file_list : List MediaEntry

pub record StandbyConfiguration : Type 0 where
  pub enable : Bool
  pub media_file : Bytes

pub record DisplayConfiguration : Type 0 where
  pub backlight_enable : Bool
  pub backlight_brightness : ℕ
  pub mirror : Bool
  pub ui_rotation : ℕ
  pub media_rotation : ℕ

pub record WorkConfiguration : Type 0 where
  pub media_mode : ℕ
  pub loop_mode : ℕ
  pub single_mode_media_file : Bytes
  pub dual_mode_left_media_file : Bytes
  pub dual_mode_right_media_file : Bytes
  pub kaleidoscope_media_file : Bytes
  pub kaleidoscope_source : ℕ

pub record FilterConfiguration : Type 0 where
  pub enable : Bool
  pub filter_file : Bytes
  pub alpha : ℕ
  pub dual_mode_left_file : Bytes
  pub dual_mode_right_file : Bytes
  pub dual_mode_left_alpha : ℕ
  pub dual_mode_right_alpha : ℕ
  pub filter_mode : ℕ

pub record UserConfiguration : Type 0 where
  pub poweron_config : Option Bytes
  pub standby_config : Option StandbyConfiguration
  pub work_config : Option WorkConfiguration
  pub filter_config : Option FilterConfiguration
  pub display_config : Option DisplayConfiguration

pub record OverlayLabel : Type 0 where
  pub label_id : ℕ
  pub line : ℕ
  pub order : ℕ
  pub gap_left : ℕ
  pub background : ℕ
  pub background_color : ℕ
  pub gradient_color : ℕ
  pub text_font : Bytes
  pub text_size : ℕ
  pub text_color : ℕ
  pub text : Bytes

pub record OverlayGroup : Type 0 where
  pub group_id : ℕ
  pub group_x : ℕ
  pub group_y : ℕ
  pub group_width : ℕ
  pub group_height : ℕ
  pub text_align : ℕ
  pub line_gap : ℕ
  pub labels : List OverlayLabel

pub record OverlayGroupUpdate : Type 0 where
  pub group_id : ℕ
  pub label_texts : List (ℕ × Bytes)

-- A request's body. A query carries its token, and the authentication query its key.
pub data RequestBody : Type 0 where
  ping : Bytes → RequestBody
  device_information_query system_configuration_query media_catalog_query user_configuration_query :
      Bytes → RequestBody
  device_authentication_query : ℕ → RequestBody
  user_configuration : UserConfiguration → RequestBody
  overlay_layout : List OverlayGroup → RequestBody
  metric_batch : List OverlayGroupUpdate → RequestBody
  transfer_begin : Bytes → ℕ → RequestBody
  transfer_chunk : Bytes → RequestBody
  transfer_end : Bytes → ℕ → RequestBody
  file_removal : Bytes → Bytes → RequestBody
  media_read_chunk : Bytes → ℕ → ℕ → RequestBody

pub record Request : Type 0 where
  pub header : Option WireHeader
  pub body : Option RequestBody

pub data ResponseBody : Type 0 where
  pong : Bytes → ResponseBody
  device_information : DeviceInformation → ResponseBody
  device_authentication : Bytes → ResponseBody
  system_configuration : ResponseBody
  media_catalog : MediaCatalog → ResponseBody
  user_configuration : UserConfiguration → ResponseBody
  acknowledgement : Bytes → ResponseBody
  transfer_begin_status transfer_chunk_status transfer_end_status : ℕ → ResponseBody
  media_read_chunk : Bytes → ResponseBody
  asynchronous_event : Bool → ResponseBody

pub record ProtocolError : Type 0 where
  pub code : ℕ
  pub why : Bytes

pub record Response : Type 0 where
  pub header : Option WireHeader
  pub error : Option ProtocolError
  pub body : Option ResponseBody

-- What prost does: bytes of a message, and back, if they are one.
pub record Codec : Type 0 where
  pub encode_to_vec : Request → Bytes
  pub decode : Bytes → Option Response
