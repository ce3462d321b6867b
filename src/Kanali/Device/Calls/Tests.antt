-- ===== src/Kanali/Device/Calls/Tests.antt =====
-- Runs of `Device` over a session that answers every request and keeps a log.
use tryxctl.Prelude.{
  ◌≡◌, ◌≢◌, refl, sym, ap, true, false, none, some, Option, List, [], ◌∷◌, ◌++◌, Bytes, equal,
  starts_with,
}
use tryxctl.Prelude.Text.{codes}
use tryxctl.Device.Product.{turris620, capabilities, media_name_suffix}
use tryxctl.Kanali.Wire.{
  Request, RequestBody, Response, ResponseBody, UserConfiguration, WorkConfiguration,
  DisplayConfiguration,
}
use tryxctl.Kanali.Errors.{Outcome, done, stuck}
use tryxctl.Kanali.Session.{Expect, matches, matches_body}
use tryxctl.Kanali.Device
use tryxctl.Kanali.Device.{
  Change, DisplayState, Catalog, is_safe_device_name, check_transfer, require,
}
use tryxctl.Kanali.Device.Calls
use tryxctl.Kanali.Device.Calls.{Link, request_of}
use tryxctl.Kanali.Device.Calls.Uploads.{Chunks, upload-sends, chunk_requests}
use tryxctl.Kanali.Device.Calls.Panics.{upload-Ends}

abbrev full_screen : WorkConfiguration
full_screen = record {
  media_mode = 0;
  loop_mode = 0;
  single_mode_media_file = codes "clip";
  dual_mode_left_media_file = [];
  dual_mode_right_media_file = [];
  kaleidoscope_media_file = [];
  kaleidoscope_source = 0;
}

abbrev half_bright : DisplayConfiguration
half_bright = record {
  backlight_enable = true;
  backlight_brightness = 50;
  mirror = false;
  ui_rotation = 0;
  media_rotation = 0;
}

abbrev kept : UserConfiguration
kept = record {
  poweron_config = none;
  standby_config = none;
  work_config = some full_screen;
  filter_config = none;
  display_config = some half_bright;
}

abbrev body_of : Expect → ResponseBody
body_of Expect.pong = ResponseBody.pong []
body_of Expect.device_information = ResponseBody.device_information (record {
  os_name = [];
  os_version = [];
  firmware_version = [];
  product_name = [];
  app_version = [];
  serial_number = [];
  serial_number_locked = false;
  chip_id = [];
})
body_of Expect.device_authentication = ResponseBody.device_authentication []
body_of Expect.system_configuration = ResponseBody.system_configuration
body_of Expect.media_catalog =
    ResponseBody.media_catalog (record { media_file_list = []; preset_file_list = [] })
body_of Expect.user_configuration = ResponseBody.user_configuration kept
body_of Expect.acknowledgement = ResponseBody.acknowledgement []
body_of Expect.transfer_begin_status = ResponseBody.transfer_begin_status 0
body_of Expect.transfer_chunk_status = ResponseBody.transfer_chunk_status 0
body_of Expect.transfer_end_status = ResponseBody.transfer_end_status 0
body_of Expect.media_read_chunk = ResponseBody.media_read_chunk []

abbrev reply_for : Expect → Response
reply_for e = record { header = none; error = none; body = some (body_of e) }

body_of-matches : (e : Expect) → matches e (some (body_of e)) ≡ true
unfolding matches matches_body
body_of-matches Expect.pong = refl
body_of-matches Expect.device_information = refl
body_of-matches Expect.device_authentication = refl
body_of-matches Expect.system_configuration = refl
body_of-matches Expect.media_catalog = refl
body_of-matches Expect.user_configuration = refl
body_of-matches Expect.acknowledgement = refl
body_of-matches Expect.transfer_begin_status = refl
body_of-matches Expect.transfer_chunk_status = refl
body_of-matches Expect.transfer_end_status = refl
body_of-matches Expect.media_read_chunk = refl

body_in : Outcome Response → Option ResponseBody
body_in (done r) = r.body
body_in _ = none

reply_for-matches :
    (e : Expect) (reply : Response) → done (reply_for e) ≡ done reply → matches e reply.body ≡ true
unfolding body_in
reply_for-matches e reply h =
    let same : some (body_of e) ≡ reply.body = ap body_in h in rw (sym same) (body_of-matches e)

reply_for-Ends : (e : Expect) → done (reply_for e) ≢ stuck
reply_for-Ends e = λ h. cc

abbrev agreeable : Link
agreeable = record {
  State = List Request;
  execute = λ r e p track s. (done (reply_for e), s ++ (r ∷ []));
  write_only = λ r s. (done tt, s);
  write_tracked_only = λ r s. (done 1, s);
  drain = λ window s. (0, s);
  bootstrap = λ s. (stuck, s);
  execute_ends = λ r e p track s. reply_for-Ends e;
  execute_matches = λ r e p track s reply h. reply_for-matches e reply h;
}

abbrev file_name : Bytes
file_name = codes "a.h264_1280x720"

abbrev sent_log : List Request
sent_log =
    request_of (RequestBody.transfer_begin file_name 3)
    ∷ request_of (RequestBody.transfer_chunk (1 ∷ 2 ∷ 3 ∷ []))
    ∷ request_of (RequestBody.transfer_end (codes "media") 0)
    ∷ []

upload_run : Calls.upload agreeable turris620 (1 ∷ 2 ∷ 3 ∷ []) file_name [] ≡ (done tt, sent_log)
unfolding Calls.upload require capabilities Calls.check_upload is_safe_device_name equal starts_with
    Calls.ends_with media_name_suffix Calls.transmit check_transfer Calls.upload_loop
upload_run = refl

upload-sends_example :
    (chunks : List Bytes) × Chunks (1 ∷ 2 ∷ 3 ∷ []) chunks
    × (sent_log
        ≡ []
          ++ (request_of (RequestBody.transfer_begin file_name 3) ∷ chunk_requests chunks
              ++ (request_of (RequestBody.transfer_end (codes "media") 0) ∷ [])))
upload-sends_example =
    upload-sends agreeable turris620 (λ s. s) (λ r e p track s. refl) (1 ∷ 2 ∷ 3 ∷ []) file_name []
      sent_log upload_run

upload-Ends_example : (Calls.upload agreeable turris620 (1 ∷ 2 ∷ []) file_name []).0 ≢ stuck
upload-Ends_example = upload-Ends agreeable turris620 (1 ∷ 2 ∷ []) file_name []

abbrev to_half : Change
to_half = record {
  media = some (codes "clip" ∷ []);
  split_screen = false;
  play_mode = none;
  brightness = some 50;
  backlight = none;
  waterfall = some false;
  rotation = none;
}

abbrev shown : DisplayState
shown = record {
  backlight_enabled = true;
  brightness = 50;
  standby_enabled = false;
  standby_media = [];
  mirror = false;
  waterfall = false;
  screen_mode = codes "Full Screen";
  play_mode = codes "Single";
  media = codes "clip" ∷ [];
}

abbrev apply_log : List Request
apply_log =
    request_of (RequestBody.user_configuration_query (codes "NA"))
    ∷ request_of (RequestBody.user_configuration kept)
    ∷ request_of (RequestBody.user_configuration_query (codes "NA"))
    ∷ []

name_run : is_safe_device_name (codes "a.mp4") ≡ true
unfolding is_safe_device_name equal starts_with
name_run = refl

suffix_run : Device.all_bytes Device.is_name_byte (codes ".h264_1280x720") ≡ true
unfolding Device.all_bytes Device.is_name_byte
suffix_run = refl
