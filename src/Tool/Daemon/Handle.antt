-- ===== src/Tool/Daemon/Handle.antt =====
-- `handle` of crates/tryxctl/src/daemon.rs: one request answered, and whether it found the link dead.
pub mod Answers
pub mod Honest
mod Tests
use tryxctl.Prelude.{
  ℕ, Bool, true, false, ◌&&◌, Option, none, some, List, [], ◌∷◌, ◌++◌, if◌then◌else◌, starts_with,
  Result, ok, err, Bytes,
}
use tryxctl.Prelude.Text.{codes}
use tryxctl.Legacy.{LegacyError}
use tryxctl.Legacy.Frame.{Response}
use tryxctl.Kanali.Errors.{KanaliError}
use tryxctl.Kanali.Device.{Change}
use tryxctl.Tool.{
  Info, legacy_info, DeviceInfo, DisplayState, Request, Value, Reply, reply_ok, reply_error,
  DaemonStatus, last_applied, from_kanali, null, sent, rebooting, daemon_status, device_info,
  status_word, shown, raw_response, media, uploaded,
}
use tryxctl.Tool.Platform.{
  Platform, Call, Link, handshake, load, save, apply_screen, set_fan_lcd, set_brightness,
  set_rotation, delete_media, reboot, request_with, send_with, link_apply_state, link_brightness,
  link_apply, link_display_state, link_delete, link_catalog, link_upload,
}
use tryxctl.Tool.Daemon.{
  Owned, legacy_client, kanali_link, legacy_lost, kanali_lost, failed_with, info_of,
}

-- The reply, or a message and whether the link is gone.
abbrev pub Served : Type 0
Served = Result (Bytes × Bool) Reply

-- An error and its reply; a reboot is reported as success to the caller.
pub failure : Bytes → Bool → Reply × Bool
failure message lost =
    if lost && starts_with message (codes "rebooting")
    then (reply_ok rebooting, true)
    else (reply_error message, lost)

pub conclude : Served → DaemonStatus → (Reply × Bool) × DaemonStatus
unfolding failure
conclude (ok reply) status = ((reply, false), status)
conclude (err (message, lost)) status = (failure message lost, failed_with message status)

only_rotation : ℕ → Change
only_rotation degrees = record {
  media = none;
  split_screen = false;
  play_mode = none;
  brightness = none;
  backlight = none;
  waterfall = none;
  rotation = some degrees;
}

of_failure : Result Bytes Bytes → Served
of_failure (ok word) = ok (reply_ok (status_word word))
of_failure (err message) = err (message, false)

not_on_kanali : Served
not_on_kanali = err (codes "not available on the KANALI firmware", false)

not_on_legacy : Served
not_on_legacy = err (codes "the legacy firmware manages media over adb", false)

link_info_reply : Option Info → Served
link_info_reply (some i) = ok (reply_ok (device_info i))
link_info_reply none = err (codes "this product reports no device information", false)

-- What the call of `?` in a closure goes on with.
or_stop : {E A W : Type 0} → Result E A → Result E A × W → W → Result E A × W
or_stop (ok _) rest after = rest
or_stop (err e) rest after = (err e, after)

one_of : {E A W : Type 0} → Result E A → W → W → W
one_of (ok _) u v = u
one_of (err _) u v = v

module _ (p : Platform) where
  open p use {World, perform, legacy_text, kanali_text, json_text}

  of_legacy : {A : Type 0} → (A → Reply) → Result LegacyError A → Served
  of_legacy reply (ok a) = ok (reply a)
  of_legacy reply (err e) = err (legacy_text e, legacy_lost e)

  of_kanali : {A : Type 0} → (A → Reply) → Result KanaliError A → Served
  of_kanali reply (ok a) = ok (reply a)
  of_kanali reply (err e) = err (kanali_text e, kanali_lost e)

  status_reply : Response Bytes → Reply
  status_reply r = reply_ok (status_word r.status)

  with_info : Result LegacyError DeviceInfo → DaemonStatus → DaemonStatus
  with_info (ok device) status = record status { info = some (legacy_info device) }
  with_info (err e) status = status

  -- What an applied state leaves: it is shown, and saved.
  applied : {E A : Type 0} → Result E A → DisplayState → DaemonStatus → World → DaemonStatus × World
  applied (ok a) state status w =
      (record status { screen = state.screen }, (perform (save state) w).1)
  applied (err e) state status w = (status, w)

  -- A reboot ends the link, whatever the panel answered.
  rebooted : Result LegacyError (Response Bytes) → Served
  rebooted (ok r) = err (codes "rebooting (" ++ json_text r.status ++ codes ")", true)
  rebooted (err e) = err (legacy_text e, legacy_lost e)

  -- The names are deleted one after the other, until one fails.
  delete_all : ℕ → List Bytes → World → Result KanaliError (Unit {0}) × World
  unfolding or_stop
  delete_all link [] w = (ok tt, w)
  delete_all link (name ∷ names) w =
      let (result, after) = perform (link_delete link name) w in
      let rest = delete_all link names after in or_stop result rest after

  -- A request for the status does not come here: `handle` answers it.
  serve_legacy : ℕ → Request → DaemonStatus → World → Served × DaemonStatus × World
  unfolding of_legacy status_reply with_info applied rebooted not_on_legacy
  serve_legacy client Request.status status w = (ok (reply_ok (daemon_status status)), status, w)
  serve_legacy client Request.info status w =
      let (r, w) = perform (handshake client) w in
      (of_legacy (λ device. reply_ok (device_info (legacy_info device))) r, with_info r status, w)
  serve_legacy client (Request.apply state) status w =
      let ((r, state), w) = perform (apply_screen client state) w in
      let (status, w) = applied r state status w in (of_legacy status_reply r, status, w)
  serve_legacy client (Request.brightness value) status w =
      let (r, w) = perform (set_brightness client value) w in (of_legacy status_reply r, status, w)
  serve_legacy client (Request.rotate degrees) status w =
      let (r, w) = perform (set_rotation client degrees) w in (of_legacy status_reply r, status, w)
  serve_legacy client Request.readback status w =
      let (saved, w) = perform load w in
      (ok (reply_ok (shown (last_applied saved status.info status.fans))), status, w)
  serve_legacy client (Request.delete_media names) status w =
      let (r, w) = perform (delete_media client names) w in (of_legacy status_reply r, status, w)
  serve_legacy client (Request.fan_lcd percent) status w =
      let (r, w) = perform (set_fan_lcd client percent) w in (of_legacy status_reply r, status, w)
  serve_legacy client Request.reboot status w =
      let (r, w) = perform (reboot client) w in (rebooted r, status, w)
  serve_legacy client (Request.raw method command body true) status w =
      let (r, w) = perform (request_with client method command body) w in
      (of_legacy (λ (a : Response Bytes). reply_ok (raw_response a.status a.body)) r, status, w)
  serve_legacy client (Request.raw method command body false) status w =
      let (r, w) = perform (send_with client method command body) w in
      (of_legacy (λ _. reply_ok sent) r, status, w)
  serve_legacy client Request.catalog status w = (not_on_legacy, status, w)
  serve_legacy client (Request.upload path name) status w = (not_on_legacy, status, w)

  serve_kanali : Link → Request → DaemonStatus → World → Served × DaemonStatus × World
  unfolding one_of of_kanali applied delete_all not_on_kanali link_info_reply only_rotation
      of_failure
  serve_kanali link Request.status status w = (ok (reply_ok (daemon_status status)), status, w)
  serve_kanali link Request.info status w = (link_info_reply (info_of link), status, w)
  serve_kanali link (Request.apply state) status w =
      let (r, w) = perform (link_apply_state link.handle state) w in
      let (status, w) = applied r state status w in (of_failure r, status, w)
  serve_kanali link (Request.brightness value) status w =
      let (r, w) = perform (link_brightness link.handle value) w in
      (of_kanali (λ _. reply_ok (status_word (codes "applied"))) r, status, w)
  serve_kanali link (Request.rotate degrees) status w =
      let (r, w) = perform (link_apply link.handle (only_rotation degrees)) w in
      (of_kanali (λ _. reply_ok (status_word (codes "applied"))) r, status, w)
  serve_kanali link Request.readback status w =
      let (r, w) = perform (link_display_state link.handle) w in
      let (saved, w') = perform load w in
      (
        of_kanali (λ state. reply_ok (shown (from_kanali state saved (info_of link)))) r,
        status,
        one_of r w' w,
      )
  serve_kanali link (Request.delete_media names) status w =
      let (r, w) = delete_all link.handle names w in
      (of_kanali (λ _. reply_ok (status_word (codes "applied"))) r, status, w)
  serve_kanali link Request.catalog status w =
      let (r, w) = perform (link_catalog link.handle) w in
      (of_kanali (λ c. reply_ok (media c)) r, status, w)
  serve_kanali link (Request.upload path name) status w =
      let (r, w) = perform (link_upload link.handle path name) w in
      (of_kanali (λ _. reply_ok (uploaded name)) r, status, w)
  serve_kanali link (Request.fan_lcd _) status w = (not_on_kanali, status, w)
  serve_kanali link Request.reboot status w = (not_on_kanali, status, w)
  serve_kanali link (Request.raw _ _ _ _) status w = (not_on_kanali, status, w)

  serve : Owned → Request → DaemonStatus → World → Served × DaemonStatus × World
  unfolding serve_legacy serve_kanali
  serve (legacy_client client) request = serve_legacy client request
  serve (kanali_link link) request = serve_kanali link request

  serve_owned :
      Option Owned → Request → DaemonStatus → World → (Reply × Bool) × DaemonStatus × World
  unfolding serve
  serve_owned none request status w = (
    (reply_error (codes "the display is disconnected; the daemon retries every 3 s"), false),
    status,
    w,
  )
  serve_owned (some owned) request status w =
      let (served, status, w) = serve owned request status w in
      let (reply, status) = conclude served status in (reply, status, w)

  -- A request for the status is answered even when the display is gone.
  pub handle : Option Owned → Request → DaemonStatus → World → (Reply × Bool) × DaemonStatus × World
  unfolding serve_owned
  handle owned Request.status status w = ((reply_ok (daemon_status status), false), status, w)
  handle owned request status w = serve_owned owned request status w
