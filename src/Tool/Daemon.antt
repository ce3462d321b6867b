-- ===== src/Tool/Daemon.antt =====
-- The daemon of crates/tryxctl/src/daemon.rs: opening the display, restoring the saved screen and
-- pushing a sample. The requests it serves and its loop are in the modules below. Printed lines are
-- left out.
pub mod Handle
pub mod Loop
mod Clock
mod Desk
mod Keeps
use tryxctl.Prelude.{
  ℕ, ◌+◌, ◌*◌, ◌%◌, ◌^◌, Bool, true, false, ◌&&◌, ◌||◌, not, Option, none, some, List, [], ◌∷◌,
  ◌++◌, if◌then◌else◌, min, max, equal, Result, ok, err, Bytes,
}
use tryxctl.Prelude.Text.{codes}
use tryxctl.Device.Product.{Product}
use tryxctl.Legacy.{LegacyError, serial, io}
use tryxctl.Kanali.Transport.{TransportError, disconnected, usb}
use tryxctl.Kanali.Errors.{KanaliError, transport}
use tryxctl.Tool.{
  Protocol, legacy_protocol, kanali_protocol, Info, legacy_info, kanali_info, DeviceInfo, FanStatus,
  DisplayState, Sample, DaemonStatus,
}
use tryxctl.Tool.Platform.{
  Platform, Call, Link, Backend, legacy_target, kanali_target, select_backend, open_client,
  handshake, sleep, open_link, load, monitor, utc_offset, save, apply_screen, set_fan_lcd,
  send_sysinfo, link_apply_state, link_adopt_state, link_push,
}

pub data Owned : Type 0 where
  legacy_client : ℕ → Owned
  kanali_link : Link → Owned

abbrev pub seconds : ℕ → ℕ
seconds n = n * 1000000000

abbrev pub reconnect_interval : ℕ
reconnect_interval = seconds 3

abbrev pub silent_push_limit : ℕ
silent_push_limit = 3

abbrev pub resume_gap : ℕ
resume_gap = seconds 30

abbrev pub keepalive_interval : ℕ
keepalive_interval = seconds 2

unfoldable pub legacy_lost : LegacyError → Bool
legacy_lost (LegacyError.io _) = true
legacy_lost (LegacyError.serial _ _) = true
legacy_lost _ = false

unfoldable pub transport_lost : TransportError → Bool
transport_lost TransportError.disconnected = true
transport_lost (TransportError.usb _) = true
transport_lost (TransportError.io _) = true
transport_lost _ = false

unfoldable pub kanali_lost : KanaliError → Bool
unfolding transport_lost
kanali_lost (KanaliError.transport e) = transport_lost e
kanali_lost _ = false

unfoldable pub push_interval : Owned → ℕ → ℕ
push_interval (legacy_client _) interval = seconds (max interval 1)
push_interval (kanali_link _) interval = seconds (min (max interval 1) 2)

-- A message is recorded as the last error.
abbrev pub failed_with : Bytes → DaemonStatus → DaemonStatus
failed_with message status = record status { last_error = some message }

-- Whether a list has no element.
unfoldable pub is_nil : {A : Type 0} → List A → Bool
is_nil [] = true
is_nil (x ∷ xs) = false

unfoldable pub describes_screen : DisplayState → Bool
unfolding is_nil
describes_screen saved = not (is_nil saved.screen.media) || not (is_nil saved.screen.preset_id)

unfoldable pub wants_overlay : DisplayState → Bool
unfolding is_nil
wants_overlay saved =
    not (is_nil saved.screen.sysinfo_display) || not (is_nil saved.screen.settings.badges)

-- `link.info.clone().map(Info::Kanali)`
abbrev pub info_of : Link → Option Info
info_of link = elim link.info [ none ↦ none | some i ↦ some (kanali_info i) ]

module _ (p : Platform) where
  open p use {World, perform, legacy_text, kanali_text}

  -- The identity that a handshake gives; a stale reply is asked for again, 300 ms later.
  identified : ℕ → DeviceInfo → World → Result LegacyError DeviceInfo × World
  identified client device w =
      if equal device.product_id (codes "unknown")
      then perform (handshake client) (perform (sleep (300 * 1000000)) w).1
      else (ok device, w)

  greeted : ℕ → Result LegacyError DeviceInfo × World → Result LegacyError DeviceInfo × World
  unfolding identified
  greeted client (ok device, w) = identified client device w
  greeted client (err e, w) = (err e, w)

  named :
      ℕ
      → DaemonStatus
      → Result LegacyError DeviceInfo × World
      → Result Bytes Owned × DaemonStatus × World
  named client status (ok device, w) =
      (ok (legacy_client client), record status { info = some (legacy_info device) }, w)
  named client status (err e, w) = (err (codes "handshake: " ++ legacy_text e), status, w)

  opened_client :
      Bytes → DaemonStatus → Result Bytes ℕ × World → Result Bytes Owned × DaemonStatus × World
  unfolding greeted named
  opened_client tty status (ok client, w) =
      let status = record status { protocol = legacy_protocol; product = none; tty = tty } in
      named client status (greeted client (perform (handshake client) w))
  opened_client tty status (err message, w) = (err message, status, w)

  opened_link :
      Bytes
      → Product
      → DaemonStatus
      → Result Bytes Link × World
      → Result Bytes Owned × DaemonStatus × World
  opened_link id product status (ok link, w) = (
    ok (kanali_link link),
    record status {
      protocol = kanali_protocol;
      product = some product;
      tty = id;
      info = info_of link;
    },
    w,
  )
  opened_link id product status (err message, w) = (err message, status, w)

  opened : DaemonStatus → Result Bytes Backend × World → Result Bytes Owned × DaemonStatus × World
  unfolding opened_client opened_link
  opened status (ok (legacy_target tty), w) = opened_client tty status (perform (open_client tty) w)
  opened status (ok (kanali_target id product), w) =
      opened_link id product status (perform (open_link id) w)
  opened status (err message, w) = (err message, status, w)

  pub open_backend : DaemonStatus → World → Result Bytes Owned × DaemonStatus × World
  unfolding opened
  open_backend status w = opened status (perform select_backend w)

  -- An error is recorded after a word that says what failed.
  pub noted : {E A : Type 0} → Bytes → (E → Bytes) → Result E A → DaemonStatus → DaemonStatus
  noted what text (ok a) status = status
  noted what text (err e) status = failed_with (what ++ text e) status

  restore_screen : ℕ → DisplayState → DaemonStatus → World → DisplayState × DaemonStatus × World
  unfolding noted
  restore_screen client saved status w =
      if describes_screen saved
      then (let ((result, applied), after) = perform (apply_screen client saved) w in
          (applied, noted (codes "restore: ") legacy_text result status, after))
      else (saved, status, w)

  restore_fan : ℕ → Option ℕ → DaemonStatus → World → DaemonStatus × World
  unfolding noted
  restore_fan client none status w = (status, w)
  restore_fan client (some percent) status w =
      let (result, after) = perform (set_fan_lcd client (some percent)) w in
      (noted (codes "fan speed: ") legacy_text result status, after)

  restore_link : ℕ → DisplayState → DaemonStatus → World → DaemonStatus × World
  unfolding noted
  restore_link link saved status w =
      if describes_screen saved || wants_overlay saved
      then (let (result, after) = perform (link_apply_state link saved) w in
          (noted (codes "restore: ") (λ m. m) result status, after))
      else (let (result, after) = perform (link_adopt_state link saved) w in
          (noted (codes "restore: ") (λ m. m) result status, after))

  restored : Owned → DisplayState → DaemonStatus → World → DisplayState × DaemonStatus × World
  unfolding restore_screen restore_fan restore_link
  restored (legacy_client client) saved status w =
      let (applied, status, w) = restore_screen client saved status w in
      let (status, w) = restore_fan client applied.fan_lcd_percent status w in (applied, status, w)
  restored (kanali_link link) saved status w =
      let (status, w) = restore_link link.handle saved status w in (saved, status, w)

  pub restore : Owned → DaemonStatus → World → DaemonStatus × World
  unfolding restored
  restore owned status w =
      let (saved, w) = perform load w in
      let (saved, status, w) = restored owned saved status w in
      (record status { screen = saved.screen }, (perform (save saved) w).1)

  -- The time of a sample is local on the legacy firmware; both are words of 64 bits.
  local_sample : ℕ → Sample → Sample
  local_sample offset sample = record sample {
    timestamp_ms = (sample.timestamp_ms + offset) % 2 ^ 64;
  }

  -- What a push gives, and for a failure whether the link is gone.
  pushed :
      {E A : Type 0}
      → (E → Bytes)
      → (E → Bool)
      → Result E A
      → DaemonStatus
      → Result Bool (Unit {0}) × DaemonStatus
  pushed text lost (ok a) status =
      (ok tt, record status { pushes = (status.pushes + 1) % 2 ^ 64; last_error = none })
  pushed text lost (err e) status = (err (lost e), failed_with (codes "push: " ++ text e) status)

  with_fans : Result LegacyError FanStatus → DaemonStatus → DaemonStatus
  with_fans (ok fans) status = record status { fans = fans }
  with_fans (err e) status = status

  pub push : Owned → DaemonStatus → World → Result Bool (Unit {0}) × DaemonStatus × World
  unfolding local_sample pushed with_fans
  push (legacy_client client) status w =
      let (sample, w) = perform monitor w in
      let (offset, w) = perform utc_offset w in
      let sample = local_sample offset sample in
      let (result, w) = perform (send_sysinfo client sample) w in
      let status = record (with_fans result status) { sample = some sample } in
      let (outcome, status) = pushed legacy_text legacy_lost result status in (outcome, status, w)
  push (kanali_link link) status w =
      let (sample, w) = perform monitor w in
      let (result, w) = perform (link_push link.handle sample) w in
      let (outcome, status) =
        pushed kanali_text kanali_lost result (record status { sample = some sample }) in
      (outcome, status, w)
